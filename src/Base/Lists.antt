-- ===== src/Base/Lists.antt =====
-- Lists measured and indexed by native numbers, and the loops of the source that collect results.
use Prim.Native.Nat.{ℕ, zero, suc}
use mathlib.Core.Path.{◌≡◌, refl, ap, sym, ◌∙◌, fun_ext}
use mathlib.Core.Logic.{◌⊎◌, inl, inr}
use mathlib.Core.Bool.{Bool, true, false, ◌||◌, ◌&&◌}
use mathlib.Core.List.{List, [], ◌∷◌, ◌++◌, map, Memᴰ}
use mathlib.Core.List.Memᴰ.{head, tail, cases_cons}
use mathlib.Core.Option.{Option, none, some}
use native.Mathlib.Omega.{arith}
use cftm.Base.Tests.{Bool-cases, Option-cases, if◌then◌else◌}

module _ {ℓ} {A : Type ℓ} where
  abbrev pub length : List A → ℕ
  length [] = 0
  length (x ∷ xs) = suc (length xs)

  abbrev pub get_or : List A → ℕ → A → A
  get_or [] i d = d
  get_or (x ∷ xs) zero d = x
  get_or (x ∷ xs) (suc i) d = get_or xs i d

  -- A write out of bounds changes nothing.
  abbrev pub set : List A → ℕ → A → List A
  set [] i v = []
  set (x ∷ xs) zero v = v ∷ xs
  set (x ∷ xs) (suc i) v = x ∷ set xs i v

  abbrev pub take : ℕ → List A → List A
  take zero xs = []
  take (suc n) [] = []
  take (suc n) (x ∷ xs) = x ∷ take n xs

  abbrev pub drop : ℕ → List A → List A
  drop zero xs = xs
  drop (suc n) [] = []
  drop (suc n) (x ∷ xs) = drop n xs

  abbrev pub replicate : ℕ → A → List A
  replicate zero a = []
  replicate (suc n) a = a ∷ replicate n a

  abbrev pub cons_opt : Option A → List A → List A
  cons_opt none xs = xs
  cons_opt (some x) xs = x ∷ xs

  -- keeps what passes the test, in order
  unfoldable pub filter_by : (A → Bool) → List A → List A
  filter_by p [] = []
  filter_by p (x ∷ xs) = let rest = filter_by p xs in if p x then x ∷ rest else rest

  unfoldable pub exists_by : (A → Bool) → List A → Bool
  exists_by p [] = false
  exists_by p (x ∷ xs) = let rest = exists_by p xs in if p x then true else rest

module _ {ℓ κ} {A : Type ℓ} {B : Type κ} where
  -- a loop that appends at most one result for an item
  unfoldable pub filter_map : (A → Option B) → List A → List B
  filter_map f [] = []
  filter_map f (x ∷ xs) = cons_opt (f x) (filter_map f xs)

  -- a loop that appends any number of results for an item
  unfoldable pub flat_map : (A → List B) → List A → List B
  flat_map f [] = []
  flat_map f (x ∷ xs) = f x ++ flat_map f xs

module _ {ℓ} {A : Type ℓ} where
  pub mem-append_left : {a : A} {xs : List A} (ys : List A) → Memᴰ a xs → Memᴰ a (xs ++ ys)
  mem-append_left ys (head e) = head e
  mem-append_left ys (tail m) = tail (mem-append_left ys m)

  pub mem-append_right : {a : A} (xs : List A) {ys : List A} → Memᴰ a ys → Memᴰ a (xs ++ ys)
  mem-append_right [] m = m
  mem-append_right (x ∷ xs) m = tail (mem-append_right xs m)

  pub mem-append-cases :
      {a : A} (xs : List A) {ys : List A} → Memᴰ a (xs ++ ys) → Memᴰ a xs ⊎ Memᴰ a ys
  mem-append-cases [] m = inr m
  mem-append-cases (x ∷ xs) (head e) = inl (head e)
  mem-append-cases (x ∷ xs) (tail m) = elim (mem-append-cases xs m) [
    | inl h ↦ inl (tail h)
    | inr h ↦ inr h
  ]

  pub exists_by-true :
      (p : A → Bool) (xs : List A) → exists_by p xs ≡ true → (x : A) × Memᴰ x xs × (p x ≡ true)
  unfolding exists_by
  exists_by-true p [] h = absurd (ground arith)
  exists_by-true p (x ∷ xs) h = elim (Bool-cases (p x)) [
    | inl e ↦ (x, head refl, e)
    | inr e ↦ let (y, m, q) = exists_by-true p xs (rw (e, exists_by) at h) in (y, tail m, q)
  ]

  pub exists_by_intro :
      (p : A → Bool) {x : A} (xs : List A) → Memᴰ x xs → p x ≡ true → exists_by p xs ≡ true
  unfolding exists_by
  exists_by_intro p [] m h = elim m [ ]
  exists_by_intro p (y ∷ ys) (head e) h = rw (← e, h)
  exists_by_intro p (y ∷ ys) (tail m) h = elim (Bool-cases (p y)) [
    | inl e ↦ rw e
    | inr e ↦ rw e (exists_by_intro p ys m h)
  ]

  pub mem-filter_by :
      (p : A → Bool) {x : A} (xs : List A) → Memᴰ x xs → p x ≡ true → Memᴰ x (filter_by p xs)
  unfolding filter_by
  mem-filter_by p [] m h = elim m [ ]
  mem-filter_by p (y ∷ ys) (head e) h = rw (← e, h) (head refl)
  mem-filter_by p (y ∷ ys) (tail m) h = elim (Bool-cases (p y)) [
    | inl e ↦ rw e (tail (mem-filter_by p ys m h))
    | inr e ↦ rw e (mem-filter_by p ys m h)
  ]

  pub of_mem-filter_by :
      (p : A → Bool) {x : A} (xs : List A) → Memᴰ x (filter_by p xs) → Memᴰ x xs × (p x ≡ true)
  unfolding filter_by
  of_mem-filter_by p [] m = elim m [ ]
  of_mem-filter_by p (y ∷ ys) m = elim (Bool-cases (p y)) [
    | inl e ↦ elim (cases_cons (rw (e, if◌then◌else◌) at m)) [
      | inl q ↦ (head q, rw q e)
      | inr n ↦ let (k, q) = of_mem-filter_by p ys n in (tail k, q)
    ]
    | inr e ↦ let (k, q) = of_mem-filter_by p ys (rw (e, if◌then◌else◌) at m) in (tail k, q)
  ]

module _ {ℓ} {B : Type ℓ} where
  of_mem-cons_opt :
      {b : B} (o : Option B) (ys : List B) → Memᴰ b (cons_opt o ys) → (o ≡ some b) ⊎ Memᴰ b ys
  of_mem-cons_opt none ys m = inr m
  of_mem-cons_opt (some c) ys (head e) = inl (ap some (sym e))
  of_mem-cons_opt (some c) ys (tail m) = inr m

module _ {ℓ κ} {A : Type ℓ} {B : Type κ} where
  pub mem-filter_map :
      (f : A → Option B) {a : A} {b : B} (xs : List A)
      → Memᴰ a xs
      → f a ≡ some b
      → Memᴰ b (filter_map f xs)
  unfolding filter_map
  mem-filter_map f [] m h = elim m [ ]
  mem-filter_map f (x ∷ xs) (head e) h = rw (← e, h) (head refl)
  mem-filter_map f (x ∷ xs) (tail m) h = elim (Option-cases (f x)) [
    | inl e ↦ rw e (mem-filter_map f xs m h)
    | inr (b, e) ↦ rw e (tail (mem-filter_map f xs m h))
  ]

  pub of_mem-filter_map :
      (f : A → Option B) {b : B} (xs : List A)
      → Memᴰ b (filter_map f xs)
      → (a : A) × Memᴰ a xs × (f a ≡ some b)
  unfolding filter_map
  of_mem-filter_map f [] m = elim m [ ]
  of_mem-filter_map f (x ∷ xs) m = elim (of_mem-cons_opt (f x) (filter_map f xs) m) [
    | inl e ↦ (x, head refl, e)
    | inr k ↦ let (a, n, e) = of_mem-filter_map f xs k in (a, tail n, e)
  ]

  pub of_mem-map :
      (f : A → B) {b : B} (xs : List A) → Memᴰ b (map f xs) → (a : A) × Memᴰ a xs × (f a ≡ b)
  of_mem-map f [] m = elim m [ ]
  of_mem-map f (x ∷ xs) (head e) = (x, head refl, sym e)
  of_mem-map f (x ∷ xs) (tail m) = let (a, n, e) = of_mem-map f xs m in (a, tail n, e)

  pub mem-flat_map :
      (f : A → List B) {a : A} {b : B} (xs : List A)
      → Memᴰ a xs
      → Memᴰ b (f a)
      → Memᴰ b (flat_map f xs)
  unfolding flat_map
  mem-flat_map f [] m h = elim m [ ]
  mem-flat_map f (x ∷ xs) (head e) h = mem-append_left (flat_map f xs) (rw e at h)
  mem-flat_map f (x ∷ xs) (tail m) h = mem-append_right (f x) (mem-flat_map f xs m h)

  pub of_mem-flat_map :
      (f : A → List B) {b : B} (xs : List A)
      → Memᴰ b (flat_map f xs)
      → (a : A) × Memᴰ a xs × Memᴰ b (f a)
  unfolding flat_map
  of_mem-flat_map f [] m = elim m [ ]
  of_mem-flat_map f (x ∷ xs) m = elim (mem-append-cases (f x) m) [
    | inl h ↦ (x, head refl, h)
    | inr h ↦ let (a, n, k) = of_mem-flat_map f xs h in (a, tail n, k)
  ]

module _ {ℓ} {A : Type ℓ} (p : A → Bool) where
  pub exists_by-append :
      (xs ys : List A) → exists_by p (xs ++ ys) ≡ (exists_by p xs || exists_by p ys)
  unfolding exists_by
  exists_by-append [] ys = refl
  exists_by-append (x ∷ xs) ys = elim (Bool-cases (p x)) [
    | inl e ↦ rw e
    | inr e ↦ rw e (exists_by-append xs ys)
  ]

  pub exists_by_none : (xs : List A) → ((x : A) → Memᴰ x xs → p x ≡ false) → exists_by p xs ≡ false
  unfolding exists_by
  exists_by_none [] h = refl
  exists_by_none (x ∷ xs) h = rw (h x (head refl)) (exists_by_none xs (λ y m. h y (tail m)))

module _ {ℓ κ} {A : Type ℓ} {B : Type κ} (p : B → Bool) where
  pub exists_by-filter_map_none :
      (f : A → Option B) (xs : List A)
      → ((a : A) (b : B) → f a ≡ some b → p b ≡ false)
      → exists_by p (filter_map f xs) ≡ false
  exists_by-filter_map_none f xs h =
      exists_by_none p (filter_map f xs)
        (λ b m. let (a, n, e) = of_mem-filter_map f xs m in h a b e)

  pub exists_by-flat_map_none :
      (f : A → List B) (xs : List A)
      → ((a : A) → exists_by p (f a) ≡ false)
      → exists_by p (flat_map f xs) ≡ false
  unfolding exists_by flat_map
  exists_by-flat_map_none f [] h = refl
  exists_by-flat_map_none f (x ∷ xs) h =
      exists_by-append p (f x) (flat_map f xs) ∙ rw (h x) (exists_by-flat_map_none f xs h)

abbrev pub holds {ℓ} : {B : Type ℓ} → (B → Bool) → Option B → Bool
holds p none = false
holds p (some b) = p b

module _ {ℓ κ} {A : Type ℓ} {B : Type κ} (p : B → Bool) (f : A → Option B) where
  exists_by-cons_opt :
      (o : Option B) (ys : List B)
      → exists_by p (cons_opt o ys) ≡ (if holds p o then true else exists_by p ys)
  unfolding exists_by
  exists_by-cons_opt none ys = refl
  exists_by-cons_opt (some b) ys = refl

  pub exists_by-filter_map :
      (xs : List A) → exists_by p (filter_map f xs) ≡ exists_by (λ a. holds p (f a)) xs
  unfolding exists_by filter_map
  exists_by-filter_map [] = refl
  exists_by-filter_map (x ∷ xs) =
      exists_by-cons_opt (f x) (filter_map f xs) ∙ rw (exists_by-filter_map xs)

module _ {ℓ} {A : Type ℓ} where
  -- a test that does not look at the item leaves the loop
  pub exists_by-and :
      (p : A → Bool) (c : Bool) (xs : List A) → exists_by (λ a. p a && c) xs ≡ (exists_by p xs && c)
  unfolding exists_by
  exists_by-and p c [] = refl
  exists_by-and p c (x ∷ xs) = ground (arith, exists_by-and p c xs)

  pub exists_by_congr :
      (p q : A → Bool) (xs : List A) → ((a : A) → p a ≡ q a) → exists_by p xs ≡ exists_by q xs
  exists_by_congr p q xs h = ap (λ t. exists_by t xs) (fun_ext h)

module _ {ℓ κ} {A : Type ℓ} {B : Type κ} (p : B → Bool) (f : A → List B) where
  pub exists_by-flat_map :
      (xs : List A) → exists_by p (flat_map f xs) ≡ exists_by (λ a. exists_by p (f a)) xs
  unfolding exists_by flat_map
  exists_by-flat_map [] = refl
  exists_by-flat_map (x ∷ xs) =
      exists_by-append p (f x) (flat_map f xs)
      ∙ rw (exists_by-flat_map xs) (or_if (exists_by p (f x)) _)
    where
      or_if : (a b : Bool) → (a || b) ≡ (if a then true else b)
      or_if true b = refl
      or_if false b = refl

module _ {ℓ κ} {A : Type ℓ} {B : Type κ} (p : B → Bool) where
  pub exists_by-map :
      (f : A → B) (xs : List A) → exists_by p (map f xs) ≡ exists_by (λ a. p (f a)) xs
  unfolding exists_by
  exists_by-map f [] = refl
  exists_by-map f (x ∷ xs) = rw (exists_by-map f xs)

module _ {ℓ} {A : Type ℓ} where
  pub exists_by-filter_by :
      (p q : A → Bool) (r : Bool) (xs : List A)
      → ((a : A) → (p a && q a) ≡ (r && q a))
      → exists_by q (filter_by p xs) ≡ (r && exists_by q xs)
  unfolding exists_by filter_by
  exists_by-filter_by p q r [] h = ground arith
  exists_by-filter_by p q r (x ∷ xs) h = elim (Bool-cases (p x)) [
    | inl e ↦ elim (Bool-cases (q x)) [
      | inl k ↦ rw (e, k) (if_true r (rw (e, k) at (h x)))
      | inr k ↦ rw (e, k) (exists_by-filter_by p q r xs h)
    ]
    | inr e ↦ elim (Bool-cases (q x)) [
      | inl k ↦
          rw (e, k, exists_by-filter_by p q r xs h)
            (if_false (exists_by q xs) r (rw (e, k) at (h x)))
      | inr k ↦ rw (e, k) (exists_by-filter_by p q r xs h)
    ]
  ]
    where
      if_true : (r : Bool) → (true && true) ≡ (r && true) → true ≡ (r && true)
      if_true r e = e

      if_false : (c r : Bool) → (false && true) ≡ (r && true) → (r && c) ≡ (r && true)
      if_false c true e = absurd (ground arith)
      if_false c false e = refl

pub exists_by-filter_and {ℓ} :
    {A : Type ℓ} (p q : A → Bool) (xs : List A)
    → exists_by q (filter_by p xs) ≡ exists_by (λ a. p a && q a) xs
unfolding exists_by filter_by
exists_by-filter_and p q [] = refl
exists_by-filter_and p q (x ∷ xs) = elim (Bool-cases (p x)) [
  | inl e ↦ rw (e, exists_by-filter_and p q xs) refl
  | inr e ↦ rw e (exists_by-filter_and p q xs)
]
