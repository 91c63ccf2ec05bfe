-- ===== src/Client/Headers/Tightest.antt =====
-- The quota that the header of several policies leaves.
use cftm.Base.{
  ℕ, String, true, false, min, ◌≡◌, refl, sym, ap, ◌∙◌, Option, none, some, List, [], ◌∷◌,
  filter_map, cons_opt, Bool, ◌==◌, Bool-cases, inl, inr, if◌then◌else◌, if_split, arith,
}
use mathlib.Core.Path.{fun_ext}
use cftm.Base.Text.{split_at, trim_space, cut}
use cftm.Base.Integers.{ℤ, pos, negsuc, atoi}
use cftm.Model.Clock.{Duration}
use cftm.Client.Headers.{
  Best, Item, natural, set_field, read_part, read_parts, is_tighter, tighten, tightest, read_item,
  with_reset, parse_rate_limit_header,
}

abbrev least_of : ℕ → List ℕ → ℕ
least_of n [] = n
least_of n (m ∷ ms) = least_of (min n m) ms

-- the least number, if there is one
abbrev pub least : List ℕ → Option ℕ
least [] = none
least (n ∷ ns) = some (least_of n ns)

abbrev onto : Option ℕ → List ℕ → List ℕ
onto none ns = ns
onto (some n) ns = n ∷ ns

abbrev pub remaining_of : Option (ℕ × Duration) → Option ℕ
remaining_of none = none
remaining_of (some (n, d)) = some n

-- the smaller of two numbers comes first
tighter-least :
    (n : ℕ) (o : Option ℕ) (ns : List ℕ)
    → is_tighter n o ≡ true
    → least (n ∷ ns) ≡ least (onto o (n ∷ ns))
tighter-least n none ns h = refl
tighter-least n (some m) ns h =
    let e : min m n ≡ n = ground arith in ap (λ k. some (least_of k ns)) (sym e)

looser-least :
    (n : ℕ) (o : Option ℕ) (ns : List ℕ)
    → is_tighter n o ≡ false
    → least (onto o ns) ≡ least (onto o (n ∷ ns))
looser-least n none ns h = absurd (ground arith)
looser-least n (some m) ns h =
    let e : min m n ≡ m = ground arith in ap (λ k. some (least_of k ns)) (sym e)

tighten-least :
    (b : Best) (n r : Option ℕ) (ns : List ℕ)
    → least (onto (tighten b n r).remaining ns) ≡ least (onto b.remaining (onto n ns))
unfolding tighten
tighten-least b none r ns = refl
tighten-least b (some n) r ns =
    if_split (λ (x : Best). least (onto x.remaining ns) ≡ least (onto b.remaining (n ∷ ns)))
      (is_tighter n b.remaining) _ _ (λ e. tighter-least n b.remaining ns e)
      (λ e. looser-least n b.remaining ns e)

abbrev kept_of : Option ℕ → Option (Option ℕ) → Option ℕ
kept_of before none = before
kept_of before (some v) = v

abbrev non_negative : ℤ → Option ℕ
non_negative (pos n) = some n
non_negative (negsuc n) = none

abbrev number_of : Option ℤ → Option (Option ℕ)
number_of none = none
number_of (some z) = some (non_negative z)

-- what a part `r=…` with a number says, `some none` for a negative one
abbrev pub said_by : String → Option (Option ℕ)
said_by part =
    let (key, val, found) = cut (trim_space part) "=" in
    if found
    then (if trim_space key == "r" then number_of (atoi (trim_space val)) else none)
    else none

-- the last of the values, if there is one
abbrev last_of : Option ℕ → List (Option ℕ) → Option ℕ
last_of before [] = before
last_of before (v ∷ vs) = last_of v vs

set_field-remaining :
    (key : String) (z : Option ℤ) (item : Item)
    → (set_field key z item).remaining
      ≡ kept_of item.remaining (if key == "r" then number_of z else none)
unfolding set_field
set_field-remaining key none item =
    if_split {A = Option (Option ℕ)} (λ o. item.remaining ≡ kept_of item.remaining o) (key == "r") _
      _ (λ e. refl) (λ e. refl)
set_field-remaining key (some z) item = elim (Bool-cases (key == "r")) [
  | inl e ↦ rw e (same_number z)
  | inr e ↦ rw e (
      if_split {A = Item} (λ i. i.remaining ≡ item.remaining) (key == "t") _ _ (λ k. refl)
        (λ k. refl))
]
  where
    same_number : (z : ℤ) → natural z ≡ non_negative z
    same_number (pos n) = refl
    same_number (negsuc n) = refl

read_part-remaining :
    (item : Item) (part : String)
    → (read_part item part).remaining ≡ kept_of item.remaining (said_by part)
unfolding read_part
read_part-remaining item part = by_found (cut (trim_space part) "=")
  where
    by_found :
        (kv : String × String × Bool)
        → (let (key, val, found) = kv in
            if found
            then set_field (trim_space key) (atoi (trim_space val)) item
            else item).remaining
          ≡ kept_of item.remaining (
              let (key, val, found) = kv in
              if found
              then (if trim_space key == "r" then number_of (atoi (trim_space val)) else none)
              else none)
    by_found (key, val, true) = set_field-remaining (trim_space key) (atoi (trim_space val)) item
    by_found (key, val, false) = refl

read_parts-remaining :
    (item : Item) (parts : List String)
    → (read_parts item parts).remaining ≡ last_of item.remaining (filter_map said_by parts)
unfolding read_parts filter_map
read_parts-remaining item [] = refl
read_parts-remaining item (part ∷ parts) =
    read_parts-remaining (read_part item part) parts
    ∙ ap (λ o. last_of o (filter_map said_by parts)) (read_part-remaining item part)
    ∙ last_cons (said_by part)
  where
    last_cons :
        (o : Option (Option ℕ))
        → last_of (kept_of item.remaining o) (filter_map said_by parts)
          ≡ last_of item.remaining (cons_opt o (filter_map said_by parts))
    last_cons none = refl
    last_cons (some v) = refl

-- the remaining requests that the policies name: the last part `r=…` of a policy counts
abbrev pub named : List String → List ℕ
named texts = filter_map (λ text. last_of none (filter_map said_by (split_at b';' text))) texts

abbrev read_remaining : List String → List ℕ
read_remaining texts = filter_map (λ text. (read_item text).remaining) texts

named-read : (texts : List String) → read_remaining texts ≡ named texts
unfolding read_item
named-read texts =
    ap (λ f. filter_map f texts) (fun_ext (λ text. read_parts-remaining _ (split_at b';' text)))

tightest-least :
    (b : Best) (texts : List String)
    → (tightest b texts).remaining ≡ least (onto b.remaining (read_remaining texts))
unfolding tightest filter_map
tightest-least b [] = least_alone b.remaining
  where
    least_alone : (o : Option ℕ) → o ≡ least (onto o [])
    least_alone none = refl
    least_alone (some n) = refl
tightest-least b (text ∷ texts) =
    let item = read_item text in
    tightest-least (tighten b item.remaining item.reset) texts
    ∙ tighten-least b item.remaining item.reset (read_remaining texts)
    ∙ ap (λ ns. least (onto b.remaining ns)) (onto_cons item.remaining (read_remaining texts))
  where
    onto_cons : (o : Option ℕ) (ns : List ℕ) → onto o ns ≡ cons_opt o ns
    onto_cons none ns = refl
    onto_cons (some n) ns = refl

-- The parsed header tells how many requests are left by the tightest of its policies, and nothing
-- exactly when no policy names a number. A policy names the number of its last part `r=…` that has an
-- integer, and none if that is negative.
pub parse_rate_limit_header-least :
    (v : String) → remaining_of (parse_rate_limit_header v) ≡ least (named (split_at b',' v))
unfolding parse_rate_limit_header
parse_rate_limit_header-least v =
    let best = tightest (record { remaining = none; reset_in = 0 }) (split_at b',' v) in
    kept best.remaining best.reset_in
    ∙ tightest-least _ (split_at b',' v)
    ∙ ap least (named-read (split_at b',' v))
  where
    kept : (o : Option ℕ) (d : Duration) → remaining_of (with_reset o d) ≡ o
    kept none d = refl
    kept (some n) d = refl
