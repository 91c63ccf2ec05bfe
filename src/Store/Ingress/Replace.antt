-- ===== src/Store/Ingress/Replace.antt =====
-- A replaced rule set is the one that is read back.
use cftm.Base.{
  ℕ, String, Bool, false, not, ◌==◌, eq_iff, le→leb, ◌≡◌, ◌≤◌, ◌<◌, refl, ap, sym, ◌∙◌, suc, some,
  List, [], ◌∷◌, ◌++◌, map, Memᴰ, mem-append-cases, of_mem-filter_by, exists_by, exists_by_none,
  filter_by, sort_by, insert_by, Bool-cases, inl, inr, arith,
}
use text.Mathlib.TextPositions.{eq_refl}
use mathlib.Core.List.Memᴰ.{head, tail}
use cftm.Model.{IngressRule}
use cftm.Model.Clock.{Time}
use cftm.Store.Tables.{Tables}
use cftm.Store.Ingress.{
  ingress_of, ingress_changed, ingress_row, has_key, insert_rules, replace_ingress,
}
use cftm.Store.Ingress.Changed.{content, ingress_changed_iff}

-- the places of the rules grow
abbrev pub Numbered : ℕ → List IngressRule → Type 0
Numbered n [] = Unit
Numbered n (r ∷ rs) = (n ≤ r.index) × Numbered (suc r.index) rs

-- the rows of one tunnel have their places below n
abbrev Below : String → ℕ → List IngressRule → Type 0
Below id n rows = (q : IngressRule) → Memᴰ q rows → q.tunnel_id ≡ id → q.index < n

append_step {ℓ} :
    {A : Type ℓ} (xs : List A) (y : A) (ys : List A) → (xs ++ (y ∷ [])) ++ ys ≡ xs ++ (y ∷ ys)
append_step [] y ys = refl
append_step (x ∷ xs) y ys = ap (λ l. x ∷ l) (append_step xs y ys)

module _ (id : String) (now : Time) where
  insert_rules-some :
      (n : ℕ) (rows rs : List IngressRule)
      → Below id n rows
      → Numbered n rs
      → insert_rules id now rows rs ≡ some (rows ++ map (ingress_row id now) rs)
  unfolding insert_rules
  insert_rules-some n rows [] b o = ap some (sym (nil rows))
    where
      nil : (xs : List IngressRule) → xs ++ [] ≡ xs
      nil [] = refl
      nil (x ∷ xs) = ap (λ l. x ∷ l) (nil xs)
  insert_rules-some n rows (r ∷ rs) b o =
      rw (free, insert_rules-some (suc r.index) (rows ++ (row ∷ [])) rs below o.1)
        (ap some (append_step rows row (map (ingress_row id now) rs)))
    where
      row : IngressRule
      row = ingress_row id now r

      apart : (q : IngressRule) → Memᴰ q rows → has_key row q ≡ false
      apart q m = elim (Bool-cases (q.tunnel_id == id)) [
        | inl e ↦ let h = b q m ((eq_iff q.tunnel_id id).0 e) in let p = o.0 in rw e (ground arith)
        | inr e ↦ rw e refl
      ]

      free : exists_by (has_key row) rows ≡ false
      free = exists_by_none (has_key row) rows apart

      below : Below id (suc r.index) (rows ++ (row ∷ []))
      below q m e = elim (mem-append-cases rows m) [
        | inl k ↦ let h = b q k e in let p = o.0 in omega arith
        | inr (head k) ↦ rw k (omega arith)
        | inr (tail k) ↦ elim k [ ]
      ]

  own_rows :
      (rs : List IngressRule)
      → filter_by (λ r. r.tunnel_id == id) (map (ingress_row id now) rs)
        ≡ map (ingress_row id now) rs
  unfolding filter_by
  own_rows [] = refl
  own_rows (r ∷ rs) = rw (eq_refl id, own_rows rs) refl

  read_rows :
      (rows rs : List IngressRule)
      → filter_by
          (λ r. r.tunnel_id == id)
          (filter_by (λ r. not (r.tunnel_id == id)) rows ++ map (ingress_row id now) rs)
        ≡ map (ingress_row id now) rs
  unfolding filter_by
  read_rows [] rs = own_rows rs
  read_rows (r ∷ rows) rs = elim (Bool-cases (r.tunnel_id == id)) [
    | inl e ↦ rw e (read_rows rows rs)
    | inr e ↦ rw (e, read_rows rows rs) (rw e refl)
  ]

  sorted_rows :
      (n : ℕ) (rs : List IngressRule)
      → Numbered n rs
      → sort_by (λ r. r.index) (map (ingress_row id now) rs) ≡ map (ingress_row id now) rs
  unfolding sort_by insert_by
  sorted_rows n [] o = refl
  sorted_rows n (r ∷ []) o = refl
  sorted_rows n (r ∷ q ∷ rs) o =
      let before = o.1.0 in
      rw (sorted_rows (suc r.index) (q ∷ rs) o.1) (rw (le→leb r.index q.index (omega arith)) refl)

  content_rows :
      (rs : List IngressRule) → map content (map (ingress_row id now) rs) ≡ map content rs
  content_rows [] = refl
  content_rows (r ∷ rs) = ap (λ l. content r ∷ l) (content_rows rs)

-- The rules of a tunnel, numbered upwards as syncConfiguration numbers them, are always stored: what
-- is read back for the tunnel is what was given, in order, and so the same rules do not count as
-- changed the next time.
pub replace_ingress-read :
    (db : Tables) (id : String) (rules : List IngressRule) (now : Time)
    → (id == "") ≡ false
    → Numbered 0 rules
    → (done : Bool × Tables) × (replace_ingress db id rules now ≡ some done)
      × (ingress_of done.1 id ≡ map (ingress_row id now) rules)
      × (ingress_changed (ingress_of done.1 id) rules ≡ false)
unfolding replace_ingress
replace_ingress-read db id rules now named numbered = (
  (ingress_changed (ingress_of db id) rules, after),
  rw (replace_ingress, insert_rules-some id now 0 cleared rules none_left numbered) refl,
  read,
  (ingress_changed_iff (ingress_of after id) rules).1
      (ap (map content) read ∙ content_rows id now rules),
)
  where
    cleared : List IngressRule
    cleared = filter_by (λ r. not (r.tunnel_id == id)) db.ingress

    after : Tables
    after = record db { ingress = cleared ++ map (ingress_row id now) rules }

    none_left : Below id 0 cleared
    none_left q m e =
        let (k, other) = of_mem-filter_by (λ r. not (r.tunnel_id == id)) db.ingress m in
        let k = rw (e, eq_refl id) at other in absurd (ground arith)

    read : ingress_of after id ≡ map (ingress_row id now) rules
    read =
        unfold ingress_of in
        rw (named, read_rows id now db.ingress rules) (sorted_rows id now 0 rules numbered)
