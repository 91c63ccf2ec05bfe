-- ===== src/Base/Order.antt =====
-- ORDER BY on any test that says which row comes first, and the loops of the source that keep the
-- first of each text with a map of those seen.
use Prim.Native.String.{String, compare}
use Prim.Native.Nat.{Ordering}
use mathlib.Core.Path.{◌≡◌, refl, ap, ◌∙◌}
use mathlib.Core.Logic.{inl, inr}
use mathlib.Core.Bool.{Bool, true, false, not, ◌&&◌, ◌||◌}
use mathlib.Core.List.{List, [], ◌∷◌, Memᴰ}
use mathlib.Core.List.Memᴰ.{head, tail, cases_cons}
use native.Mathlib.Omega.{arith}
use text.Mathlib.Text.{◌==◌}
use text.Mathlib.TextEquality.{eq_iff}
use cftm.Base.Tests.{Bool-cases, if◌then◌else◌}
use cftm.Base.Lists.{exists_by, exists_by-true, exists_by_intro}

-- the order of SQLite's BINARY collation
abbrev pub text_le : String → String → Bool
text_le s t = elim (compare s t) [ Ordering.gt ↦ false | _ ↦ true ]

module _ {ℓ} {A : Type ℓ} (le : A → A → Bool) where
  unfoldable pub place : A → List A → List A
  place x [] = x ∷ []
  place x (y ∷ ys) = let rest = place x ys in if le x y then x ∷ y ∷ ys else y ∷ rest

  unfoldable pub order_by : List A → List A
  order_by [] = []
  order_by (x ∷ xs) = place x (order_by xs)

  exists_by-place :
      (p : A → Bool) (x : A) (xs : List A)
      → exists_by p (place x xs) ≡ (if p x then true else exists_by p xs)
  unfolding exists_by place
  exists_by-place p x [] = refl
  exists_by-place p x (y ∷ ys) = elim (Bool-cases (le x y)) [
    | inl e ↦ rw e
    | inr e ↦ rw (e, exists_by-place p x ys) (swap (p x) (p y) (exists_by p ys))
  ]
    where
      swap :
          (a b c : Bool)
          → (if b then true else (if a then true else c))
            ≡ (if a then true else (if b then true else c))
      swap true true c = refl
      swap true false c = refl
      swap false true c = refl
      swap false false c = refl

  pub exists_by-order_by : (p : A → Bool) (xs : List A) → exists_by p (order_by xs) ≡ exists_by p xs
  unfolding exists_by order_by
  exists_by-order_by p [] = refl
  exists_by-order_by p (x ∷ xs) = exists_by-place p x (order_by xs) ∙ rw (exists_by-order_by p xs)

-- the texts that are not empty and not seen, each once
unfoldable pub distinct : List String → List String → List String
distinct seen [] = []
distinct seen (d ∷ ds) =
    let skip = d == "" || exists_by (λ s. s == d) seen in
    let rest = distinct (if skip then seen else d ∷ seen) ds in if skip then rest else d ∷ rest

module _ (q : String → Bool) where
  abbrev wanted : String → Bool
  wanted d = not (d == "") && q d

  -- a text that was seen is found among those seen
  found_again :
      (seen : List String) (d : String)
      → exists_by (λ s. s == d) seen ≡ true
      → (exists_by q seen || q d) ≡ exists_by q seen
  found_again seen d h = elim (Bool-cases (q d)) [
    | inl e ↦
        let (s, m, k) = exists_by-true (λ s. s == d) seen h in
        rw (exists_by_intro q seen m (ap q ((eq_iff s d).0 k) ∙ e)) refl
    | inr e ↦ rw e (or_false (exists_by q seen))
  ]
    where
      or_false : (b : Bool) → (b || false) ≡ b
      or_false true = refl
      or_false false = refl

  distinct_step :
      (seen : List String) (d : String) (found rest : Bool)
      → (exists_by q (d ∷ seen) || found) ≡ (exists_by q (d ∷ seen) || rest)
      → (exists_by q seen || (if q d then true else found))
        ≡ (exists_by q seen || (if q d then true else rest))
  unfolding exists_by
  distinct_step seen d found rest h = elim (Bool-cases (q d)) [
    | inl e ↦ rw e
    | inr e ↦ rw e (rw e at h)
  ]

  distinct-or :
      (seen ds : List String)
      → (exists_by q seen || exists_by q (distinct seen ds))
        ≡ (exists_by q seen || exists_by wanted ds)
  unfolding exists_by distinct
  distinct-or seen [] = refl
  distinct-or seen (d ∷ ds) = elim (Bool-cases (d == "")) [
    | inl e ↦ rw e (distinct-or seen ds)
    | inr e ↦ elim (Bool-cases (exists_by (λ s. s == d) seen)) [
      | inl k ↦
          rw (e, k)
            (distinct-or seen ds
              ∙ again (exists_by q seen) (q d) (exists_by wanted ds) (found_again seen d k))
      | inr k ↦ rw (e, k) (distinct_step seen d _ _ (distinct-or (d ∷ seen) ds))
    ]
  ]
    where
      again : (a b r : Bool) → (a || b) ≡ a → (a || r) ≡ (a || (if b then true else r))
      again true b r h = refl
      again false true r h = absurd (ground arith)
      again false false r h = refl

  -- dropping empty and repeated texts loses no text that passes a test
  pub exists_by-distinct :
      (ds : List String) → exists_by q (distinct [] ds) ≡ exists_by (λ d. not (d == "") && q d) ds
  unfolding exists_by
  exists_by-distinct ds = distinct-or [] ds

-- what is in the list without repetition is in the list, and is not empty
pub of_mem-distinct :
    (seen : List String) {d : String} (ds : List String)
    → Memᴰ d (distinct seen ds)
    → Memᴰ d ds × ((d == "") ≡ false)
unfolding distinct
of_mem-distinct seen [] m = elim m [ ]
of_mem-distinct seen (x ∷ ds) m = elim (Bool-cases (x == "" || exists_by (λ s. s == x) seen)) [
  | inl e ↦ let (k, h) = of_mem-distinct seen ds (rw (e, if◌then◌else◌) at m) in (tail k, h)
  | inr e ↦ elim (cases_cons (rw (e, if◌then◌else◌) at m)) [
    | inl q ↦ (head q, rw q (left_false (x == "") _ e))
    | inr n ↦ let (k, h) = of_mem-distinct (x ∷ seen) ds n in (tail k, h)
  ]
]
  where
    left_false : (a b : Bool) → (a || b) ≡ false → a ≡ false
    left_false true b h = h
    left_false false b h = refl
