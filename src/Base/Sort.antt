-- ===== src/Base/Sort.antt =====
-- ORDER BY one numeric column, then the order of insertion.
use Prim.Native.Nat.{ℕ, ◌≤◌}
use mathlib.Core.List.{List, [], ◌∷◌}
use native.Mathlib.Omega.{arith}
use cftm.Base.Tests.{leb, if◌then◌else◌, if_split}

module _ {ℓ} {A : Type ℓ} (key : A → ℕ) where
  unfoldable pub insert_by : A → List A → List A
  insert_by x [] = x ∷ []
  insert_by x (y ∷ ys) =
      let rest = insert_by x ys in if leb (key x) (key y) then x ∷ y ∷ ys else y ∷ rest

  unfoldable pub sort_by : List A → List A
  sort_by [] = []
  sort_by (x ∷ xs) = insert_by x (sort_by xs)

  abbrev pub Ascending : ℕ → List A → Type 0
  Ascending n [] = Unit
  Ascending n (x ∷ xs) = (n ≤ key x) × Ascending (key x) xs

  insert_by-Ascending :
      (n : ℕ) (x : A) (xs : List A) → n ≤ key x → Ascending n xs → Ascending n (insert_by x xs)
  unfolding insert_by
  insert_by-Ascending n x [] h o = (h, tt)
  insert_by-Ascending n x (y ∷ ys) h o =
      if_split (Ascending n) (leb (key x) (key y)) _ _ (λ e. (h, (ground arith, o.1)))
        (λ e. (o.0, insert_by-Ascending (key y) x ys (ground arith) o.1))

  pub sort_by-Ascending : (xs : List A) → Ascending 0 (sort_by xs)
  unfolding sort_by
  sort_by-Ascending [] = tt
  sort_by-Ascending (x ∷ xs) =
      insert_by-Ascending 0 x (sort_by xs) (omega arith) (sort_by-Ascending xs)
