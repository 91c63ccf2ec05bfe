-- ===== src/Base/Sums.antt =====
-- Sums over lists, and tables whose rows with one key are merged.
use Prim.Native.Nat.{ℕ, ◌+◌}
use mathlib.Core.Path.{◌≡◌, refl, ap, ◌∙◌}
use mathlib.Core.Logic.{inl, inr}
use mathlib.Core.Bool.{Bool, true, false, ◌||◌}
use cftm.Base.Lists.{exists_by}
use mathlib.Core.List.{List, [], ◌∷◌, map}
use native.Mathlib.Omega.{arith}
use cftm.Base.Tests.{Bool-cases, if◌then◌else◌}
use cftm.Base.Order.{place, order_by}

module _ {ℓ} {A : Type ℓ} where
  unfoldable pub sum_by : (A → ℕ) → List A → ℕ
  sum_by f [] = 0
  sum_by f (x ∷ xs) = f x + sum_by f xs

  -- INSERT … ON CONFLICT DO UPDATE: the first row with the key of the new one takes it in
  unfoldable pub merge_into : (A → A → Bool) → (A → A → A) → A → List A → List A
  merge_into same merge x [] = x ∷ []
  merge_into same merge x (y ∷ ys) =
      let rest = merge_into same merge x ys in if same y x then merge y x ∷ ys else y ∷ rest

  unfoldable pub merge_all : (A → A → Bool) → (A → A → A) → List A → List A → List A
  merge_all same merge rows [] = rows
  merge_all same merge rows (x ∷ xs) = merge_all same merge (merge_into same merge x rows) xs

  module _ (same : A → A → Bool) (merge : A → A → A) (f : A → ℕ)
      (adds : (x y : A) → same y x ≡ true → f (merge y x) ≡ f y + f x) where
    sum_by-merge_into :
        (x : A) (ys : List A) → sum_by f (merge_into same merge x ys) ≡ f x + sum_by f ys
    unfolding sum_by merge_into
    sum_by-merge_into x [] = refl
    sum_by-merge_into x (y ∷ ys) = elim (Bool-cases (same y x)) [
      | inl e ↦ rw (e, adds x y e) (omega arith)
      | inr e ↦ rw (e, sum_by-merge_into x ys) (omega arith)
    ]

    -- merging rows keeps every sum that the merge of two rows adds up
    pub sum_by-merge_all :
        (rows xs : List A) → sum_by f (merge_all same merge rows xs) ≡ sum_by f rows + sum_by f xs
    unfolding sum_by merge_all
    sum_by-merge_all rows [] = omega arith
    sum_by-merge_all rows (x ∷ xs) =
        sum_by-merge_all (merge_into same merge x rows) xs
        ∙ rw (sum_by-merge_into x rows) (omega arith)

    pub sum_by-merge_new : (xs : List A) → sum_by f (merge_all same merge [] xs) ≡ sum_by f xs
    unfolding sum_by
    sum_by-merge_new xs = sum_by-merge_all [] xs ∙ omega arith

  module _ (same : A → A → Bool) (merge : A → A → A) (p : A → Bool)
      (keeps : (x y : A) → same y x ≡ true → (p (merge y x) ≡ p y) × (p x ≡ p y)) where
    exists_by-merge_into :
        (x : A) (ys : List A) → exists_by p (merge_into same merge x ys) ≡ (p x || exists_by p ys)
    unfolding exists_by merge_into
    exists_by-merge_into x [] = or_if (p x) false
      where
        or_if : (a b : Bool) → (if a then true else b) ≡ (a || b)
        or_if true b = refl
        or_if false b = refl
    exists_by-merge_into x (y ∷ ys) = elim (Bool-cases (same y x)) [
      | inl e ↦ rw (e, (keeps x y e).0, (keeps x y e).1) (twice (p y) (exists_by p ys))
      | inr e ↦ rw (e, exists_by-merge_into x ys) (swap (p x) (p y) (exists_by p ys))
    ]
      where
        twice : (a b : Bool) → (if a then true else b) ≡ (a || (if a then true else b))
        twice true b = refl
        twice false b = refl

        swap : (a b c : Bool) → (if b then true else (a || c)) ≡ (a || (if b then true else c))
        swap true true c = refl
        swap true false c = refl
        swap false true c = refl
        swap false false c = refl

    exists_by-merge_all :
        (rows xs : List A)
        → exists_by p (merge_all same merge rows xs) ≡ (exists_by p rows || exists_by p xs)
    unfolding exists_by merge_all
    exists_by-merge_all rows [] = or_false (exists_by p rows)
      where
        or_false : (b : Bool) → b ≡ (b || false)
        or_false true = refl
        or_false false = refl
    exists_by-merge_all rows (x ∷ xs) =
        exists_by-merge_all (merge_into same merge x rows) xs
        ∙ rw (exists_by-merge_into x rows) (regroup (p x) (exists_by p rows) (exists_by p xs))
      where
        regroup : (a b c : Bool) → ((a || b) || c) ≡ (b || (if a then true else c))
        regroup true true c = refl
        regroup true false c = refl
        regroup false true c = refl
        regroup false false c = refl

    -- merging rows keeps what a test of their key finds
    pub exists_by-merge_new :
        (xs : List A) → exists_by p (merge_all same merge [] xs) ≡ exists_by p xs
    unfolding exists_by
    exists_by-merge_new xs = exists_by-merge_all [] xs

  sum_by-place :
      (le : A → A → Bool) (f : A → ℕ) (x : A) (ys : List A)
      → sum_by f (place le x ys) ≡ f x + sum_by f ys
  unfolding sum_by place
  sum_by-place le f x [] = refl
  sum_by-place le f x (y ∷ ys) = elim (Bool-cases (le x y)) [
    | inl e ↦ rw e
    | inr e ↦ rw (e, sum_by-place le f x ys) (omega arith)
  ]

  pub sum_by-order_by :
      (le : A → A → Bool) (f : A → ℕ) (xs : List A) → sum_by f (order_by le xs) ≡ sum_by f xs
  unfolding sum_by order_by
  sum_by-order_by le f [] = refl
  sum_by-order_by le f (x ∷ xs) =
      sum_by-place le f x (order_by le xs) ∙ ap (λ n. f x + n) (sum_by-order_by le f xs)

module _ {ℓ κ} {A : Type ℓ} {B : Type κ} where
  pub sum_by-map :
      (f : B → ℕ) (g : A → B) (xs : List A) → sum_by f (map g xs) ≡ sum_by (λ x. f (g x)) xs
  unfolding sum_by
  sum_by-map f g [] = refl
  sum_by-map f g (x ∷ xs) = ap (λ n. f (g x) + n) (sum_by-map f g xs)
