-- ===== src/Server/Quality/Percentiles.antt =====
-- The median and the 95th percentile of the latencies.
use cftm.Base.{
  ℕ, zero, suc, ◌+◌, ◌-◌, ◌*◌, ◌/◌, ◌≤◌, ◌<◌, String, ◌≡◌, refl, ap, ◌∙◌, List, [], ◌∷◌, Option,
  none, some, length, get_or, sort_by, insert_by, Ascending, sort_by-Ascending, leb, if_split,
  arith,
}
use cftm.Model.{ProbeResult}
use cftm.Model.Clock.{Time, Duration}
use cftm.Server.Quality.{median_twice, p95_ms, build_quality}

abbrev itself : ℕ → ℕ
itself n = n

length-insert_by : (x : ℕ) (xs : List ℕ) → length (insert_by itself x xs) ≡ suc (length xs)
unfolding insert_by
length-insert_by x [] = refl
length-insert_by x (y ∷ ys) =
    if_split (λ (l : List ℕ). length l ≡ suc (suc (length ys))) (leb x y) _ _ (λ e. refl)
      (λ e. ap suc (length-insert_by x ys))

length-sort_by : (xs : List ℕ) → length (sort_by itself xs) ≡ length xs
unfolding sort_by
length-sort_by [] = refl
length-sort_by (x ∷ xs) = length-insert_by x (sort_by itself xs) ∙ ap suc (length-sort_by xs)

least-le : (n : ℕ) (xs : List ℕ) (j : ℕ) → Ascending itself n xs → j < length xs → n ≤ get_or xs j 0
least-le n [] j a h = absurd (omega arith)
least-le n (x ∷ xs) zero a h = a.0
least-le n (x ∷ xs) (suc j) a h =
    let q = least-le x xs j a.1 (omega arith) in let k = a.0 in omega arith

get_or_mono :
    (n : ℕ) (xs : List ℕ) (i j : ℕ)
    → Ascending itself n xs
    → i ≤ j
    → j < length xs
    → get_or xs i 0 ≤ get_or xs j 0
get_or_mono n [] i j a l h = absurd (omega arith)
get_or_mono n (x ∷ xs) zero zero a l h = omega arith
get_or_mono n (x ∷ xs) zero (suc j) a l h = least-le x xs j a.1 (omega arith)
get_or_mono n (x ∷ xs) (suc i) zero a l h = absurd (omega arith)
get_or_mono n (x ∷ xs) (suc i) (suc j) a l h = get_or_mono x xs i j a.1 (omega arith) (omega arith)

-- both are there or neither is, and the median is at most the percentile
abbrev pub IsOrdered : Option ℕ → Option ℕ → Type 0
IsOrdered none none = Unit
IsOrdered (some m) (some p) = m ≤ 2 * p
IsOrdered none (some p) = ⊥
IsOrdered (some m) none = ⊥

latencies-IsOrdered : (xs : List ℕ) → IsOrdered (median_twice xs) (p95_ms xs)
unfolding median_twice p95_ms
latencies-IsOrdered [] = tt
latencies-IsOrdered (x ∷ xs) =
    let sorted = sort_by itself (x ∷ xs) in
    let n = length (x ∷ xs) in
    let p = (95 * n + 99) / 100 - 1 in
    let a = sort_by-Ascending itself (x ∷ xs) in
    let l = length-sort_by (x ∷ xs) in
    let low = get_or_mono 0 sorted ((n - 1) / 2) p a (omega arith) (omega arith) in
    let high = get_or_mono 0 sorted (n / 2) p a (omega arith) (omega arith) in omega arith

-- The card shows a median exactly when it shows a 95th percentile, and the median is at most the
-- percentile.
pub build_quality-IsOrdered :
    (host : String) (since until : Time) (interval : Duration) (results : List ProbeResult)
    → IsOrdered
        (build_quality host since until interval results).median
        (build_quality host since until interval results).p95
unfolding build_quality
build_quality-IsOrdered host since until interval results = latencies-IsOrdered _
