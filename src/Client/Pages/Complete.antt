-- ===== src/Client/Pages/Complete.antt =====
-- All pages together are the collection.
use cftm.Base.{
  ℕ, zero, suc, true, ◌≡◌, ◌≤◌, ◌+◌, ◌-◌, ◌*◌, refl, ap, sym, ◌∙◌, ltb, length, take, drop,
  take_all, length-take, length-drop, Option, Option-cases, some, List, [], ◌∷◌, ◌++◌, if_split,
  inl, inr, arith,
}
use cftm.Client.Pages.{per_page, max_pages, is_full, list_from, list_all}

module _ {ℓ} {A : Type ℓ} where
  -- what a server answers that cuts a collection into pages and may tell its length
  abbrev pub served : Option ℕ → List A → ℕ → Option (List A × Option ℕ)
  served total xs p = some (take per_page (drop (per_page * (p - 1)) xs), total)

  take_nil : (m : ℕ) → take {A = A} m [] ≡ []
  take_nil zero = refl
  take_nil (suc m) = refl

  take_more : (n m : ℕ) (xs : List A) → take n xs ++ take m (drop n xs) ≡ take (n + m) xs
  take_more zero m xs = ap (λ k. take k xs) zero_plus
    where
      zero_plus : m ≡ 0 + m
      zero_plus = omega arith
  take_more (suc n) m [] = take_nil m ∙ sym (take_nil (suc n + m))
  take_more (suc n) m (x ∷ xs) =
      ap (λ l. x ∷ l) (take_more n m xs) ∙ ap (λ k. take k (x ∷ xs)) suc_plus
    where
      suc_plus : suc (n + m) ≡ suc n + m
      suc_plus = omega arith

  module _ (total : Option ℕ) (xs : List A) (told : (n : ℕ) → total ≡ some n → n ≡ length xs) where
    next_page :
        (p : ℕ)
        → take (per_page * p) xs ++ take per_page (drop (per_page * (suc p - 1)) xs)
          ≡ take (per_page * suc p) xs
    next_page p =
        ap (λ n. take (per_page * p) xs ++ take per_page (drop n xs)) (first p)
        ∙ (take_more (per_page * p) per_page xs ∙ ap (λ n. take n xs) (second p))
      where
        first : (p : ℕ) → per_page * (suc p - 1) ≡ per_page * p
        first p = omega arith

        second : (p : ℕ) → per_page * p + per_page ≡ per_page * suc p
        second p = omega arith

    short_last :
        (p : ℕ)
        → ltb (length (take per_page (drop (per_page * (suc p - 1)) xs))) per_page ≡ true
        → take (per_page * suc p) xs ≡ xs
    short_last p h =
        let a = length-take per_page (drop (per_page * (suc p - 1)) xs) in
        let b = length-drop (per_page * (suc p - 1)) xs in
        take_all (per_page * suc p) xs (ground arith)

    full_last :
        (p : ℕ)
        → is_full total (length (take (per_page * suc p) xs)) ≡ true
        → take (per_page * suc p) xs ≡ xs
    full_last p h = elim (Option-cases total) [
      | inl e ↦ let g = rw e at h in absurd (ground arith)
      | inr (n, e) ↦
          let k = told n e in
          let a = length-take (per_page * suc p) xs in
          let g = rw e at h in take_all (per_page * suc p) xs (ground arith)
    ]

    list_from_complete :
        (left p : ℕ)
        → length xs ≤ per_page * (p + left)
        → list_from (served total xs) left (suc p) (take (per_page * p) xs) ≡ some xs
    unfolding list_from
    list_from_complete zero p h = ap some (take_all (per_page * p) xs (omega arith))
    list_from_complete (suc left) p h = rw (next_page p) (
        if_split {A = Option (List A)} (λ o. o ≡ some xs)
          (ltb (length (take per_page (drop (per_page * (suc p - 1)) xs))) per_page) _ _
          (λ e. ap some (short_last p e))
          (λ e.
            if_split {A = Option (List A)} (λ o. o ≡ some xs)
              (is_full total (length (take (per_page * suc p) xs))) _ _
              (λ k. ap some (full_last p k)) (λ k. list_from_complete left (suc p) (omega arith))))

    -- Where a server cuts a collection of at most 2500 items into pages of fifty, with or without its
    -- length, the client's list is the whole collection, in order.
    pub list_all_complete : length xs ≤ 2500 → list_all (served total xs) ≡ some xs
    unfolding list_all
    list_all_complete h = list_from_complete max_pages 0 (omega arith)
