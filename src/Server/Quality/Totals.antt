-- ===== src/Server/Quality/Totals.antt =====
-- What buildQuality counts, in all and in its buckets.
use cftm.Base.{
  ℕ, zero, suc, ◌+◌, ◌<◌, String, Bool, true, false, not, ◌||◌, ◌==◌, ◌≡◌, refl, ap, ◌∙◌, List, [],
  ◌∷◌, length, get_or, set, sum_by, if◌then◌else◌, if_split, length-set, arith,
}
use cftm.Model.{ProbeResult}
use cftm.Model.Clock.{Time, Duration, after}
use cftm.Probe.{is_failure}
use cftm.Probe.Class
use cftm.Server.Quality.{
  QualityBucket, Scan, Step, empty_bucket, empty_scan, quality_buckets, bucket_index, bad_bucket,
  ok_bucket, step_of, step_pairs, step_variation, add_bad, add_ok, add_result, scan, max_gap_of,
  build_quality,
}

abbrev answers : QualityBucket → ℕ
answers b = b.count + (b.failures + b.excluded)

-- The counters agree: every sample is successful, failed or excluded, and the buckets hold each
-- sample, each pair and each difference once.
pub record IsConsistent (s : Scan) : Type 0 where
  pub classes : s.samples ≡ s.successful + (s.failures + s.excluded)
  pub timed : length s.latencies ≡ s.successful
  pub whole : length s.buckets ≡ quality_buckets
  pub held : sum_by answers s.buckets ≡ s.samples
  pub pairs : sum_by (λ b. b.pairs) s.buckets ≡ s.pairs
  pub variation : sum_by (λ b. b.variation) s.buckets ≡ s.variation

-- a write that adds to a number adds to the sum
sum_by-set :
    {A : Type 0} (f : A → ℕ) (d v : A) (n : ℕ) (xs : List A) (i : ℕ)
    → i < length xs
    → f v ≡ f (get_or xs i d) + n
    → sum_by f (set xs i v) ≡ sum_by f xs + n
unfolding sum_by
sum_by-set f d v n [] i h e = absurd (omega arith)
sum_by-set f d v n (x ∷ xs) zero h e = omega arith
sum_by-set f d v n (x ∷ xs) (suc i) h e =
    let rest = sum_by-set f d v n xs i (omega arith) e in omega arith

bucket_index-lt : (since t : Time) → bucket_index since t < quality_buckets
unfolding bucket_index
bucket_index-lt since t = ground arith

-- the sums over the buckets after one bucket has taken in `n` answers, `p` pairs and `v` of variation
module _ (s : Scan) (i : ℕ) (b : QualityBucket) (p v : ℕ) (h : i < quality_buckets)
    (c : IsConsistent s) (e : answers b ≡ answers (get_or s.buckets i empty_bucket) + 1)
    (k : b.pairs ≡ (get_or s.buckets i empty_bucket).pairs + p)
    (w : b.variation ≡ (get_or s.buckets i empty_bucket).variation + v) where
  set-held : sum_by answers (set s.buckets i b) ≡ suc s.samples
  set-held =
      let l = c.whole in
      let q = sum_by-set answers empty_bucket b 1 s.buckets i (omega arith) e in
      let o = c.held in omega arith

  set-pairs : sum_by (λ x. x.pairs) (set s.buckets i b) ≡ s.pairs + p
  set-pairs =
      let l = c.whole in
      sum_by-set (λ x. x.pairs) empty_bucket b p s.buckets i (omega arith) k
      ∙ ap (λ n. n + p) c.pairs

  set-variation : sum_by (λ x. x.variation) (set s.buckets i b) ≡ s.variation + v
  set-variation =
      let l = c.whole in
      sum_by-set (λ x. x.variation) empty_bucket b v s.buckets i (omega arith) w
      ∙ ap (λ n. n + v) c.variation

bad_bucket-answers :
    (r : ProbeResult) (b : QualityBucket) → answers (bad_bucket r b) ≡ answers b + 1
unfolding bad_bucket
bad_bucket-answers r b =
    if_split (λ x. answers x ≡ answers b + 1) (is_failure r.class) _ _ (λ e. omega arith)
      (λ e. omega arith)

bad_bucket-pairs : (r : ProbeResult) (b : QualityBucket) → (bad_bucket r b).pairs ≡ b.pairs + 0
unfolding bad_bucket
bad_bucket-pairs r b =
    if_split (λ (x : QualityBucket). x.pairs ≡ b.pairs + 0) (is_failure r.class) _ _
      (λ e. omega arith) (λ e. omega arith)

bad_bucket-variation :
    (r : ProbeResult) (b : QualityBucket) → (bad_bucket r b).variation ≡ b.variation + 0
unfolding bad_bucket
bad_bucket-variation r b =
    if_split (λ (x : QualityBucket). x.variation ≡ b.variation + 0) (is_failure r.class) _ _
      (λ e. omega arith) (λ e. omega arith)

add_bad-IsConsistent :
    (r : ProbeResult) (i : ℕ) (s : Scan)
    → i < quality_buckets
    → IsConsistent s
    → IsConsistent (add_bad r i s)
unfolding add_bad
add_bad-IsConsistent r i s h c =
    let old = get_or s.buckets i empty_bucket in
    let e = bad_bucket-answers r old in
    let k = bad_bucket-pairs r old in
    let w = bad_bucket-variation r old in
    record {
      classes = classes_of (is_failure r.class);
      timed = c.timed;
      whole = length-set s.buckets i (bad_bucket r old) ∙ c.whole;
      held = set-held s i (bad_bucket r old) 0 0 h c e k w;
      pairs = set-pairs s i (bad_bucket r old) 0 0 h c e k w ∙ omega arith;
      variation = set-variation s i (bad_bucket r old) 0 0 h c e k w ∙ omega arith;
    }
  where
    classes_of :
        (b : Bool)
        → suc s.samples
          ≡ s.successful
            + ((if b then suc s.failures else s.failures)
                + (if b then s.excluded else suc s.excluded))
    classes_of true = let q = c.classes in omega arith
    classes_of false = let q = c.classes in omega arith

ok_bucket-answers :
    (r : ProbeResult) (step : Step) (b : QualityBucket)
    → answers (ok_bucket r step b) ≡ answers b + 1
unfolding ok_bucket
ok_bucket-answers r Step.fresh b = omega arith
ok_bucket-answers r (Step.near d) b = omega arith
ok_bucket-answers r Step.far b = omega arith

ok_bucket-pairs :
    (r : ProbeResult) (step : Step) (b : QualityBucket)
    → (ok_bucket r step b).pairs ≡ b.pairs + step_pairs step
unfolding ok_bucket
ok_bucket-pairs r Step.fresh b = omega arith
ok_bucket-pairs r (Step.near d) b = omega arith
ok_bucket-pairs r Step.far b = omega arith

ok_bucket-variation :
    (r : ProbeResult) (step : Step) (b : QualityBucket)
    → (ok_bucket r step b).variation ≡ b.variation + step_variation step
unfolding ok_bucket
ok_bucket-variation r Step.fresh b = omega arith
ok_bucket-variation r (Step.near d) b = refl
ok_bucket-variation r Step.far b = omega arith

add_ok-IsConsistent :
    (r : ProbeResult) (i : ℕ) (step : Step) (s : Scan)
    → i < quality_buckets
    → IsConsistent s
    → IsConsistent (add_ok r i step s)
unfolding add_ok
add_ok-IsConsistent r i step s h c =
    let old = get_or s.buckets i empty_bucket in
    let b = ok_bucket r step old in
    let e = ok_bucket-answers r step old in
    let k = ok_bucket-pairs r step old in
    let w = ok_bucket-variation r step old in
    let q = c.classes in
    record {
      classes = omega arith;
      timed = ap suc c.timed;
      whole = length-set s.buckets i b ∙ c.whole;
      held = set-held s i b (step_pairs step) (step_variation step) h c e k w;
      pairs = set-pairs s i b (step_pairs step) (step_variation step) h c e k w;
      variation = set-variation s i b (step_pairs step) (step_variation step) h c e k w;
    }

add_result-IsConsistent :
    (since until : Time) (max_gap : Duration) (r : ProbeResult) (s : Scan)
    → IsConsistent s
    → IsConsistent (add_result since until max_gap r s)
unfolding add_result
add_result-IsConsistent since until max_gap r s c =
    let h = bucket_index-lt since r.checked_at in
    if_split IsConsistent (not (after r.checked_at since) || after r.checked_at until) _ _ (λ e. c)
      (λ e.
        if_split IsConsistent (r.class == Class.ok) _ _
          (λ k. add_ok-IsConsistent r _ (step_of max_gap s.previous r) s h c)
          (λ k. add_bad-IsConsistent r _ s h c))

scan_from-IsConsistent :
    (since until : Time) (max_gap : Duration) (rs : List ProbeResult) (s : Scan)
    → IsConsistent s
    → IsConsistent (scan since until max_gap rs s)
unfolding scan
scan_from-IsConsistent since until max_gap [] s c = c
scan_from-IsConsistent since until max_gap (r ∷ rs) s c =
    scan_from-IsConsistent since until max_gap rs (add_result since until max_gap r s)
      (add_result-IsConsistent since until max_gap r s c)

empty_scan-IsConsistent : IsConsistent empty_scan
unfolding sum_by
empty_scan-IsConsistent = record {
  classes = refl;
  timed = refl;
  whole = refl;
  held = refl;
  pairs = refl;
  variation = refl;
}

-- Whatever the history holds, every sample that the page counts is successful, failed or excluded,
-- each lies in one of the 288 buckets, there is a latency for each successful one, and the pairs of
-- the buckets and their differences add up to those that the mean variation is taken of.
pub build_quality-IsConsistent :
    (host : String) (since until : Time) (interval : Duration) (results : List ProbeResult)
    → IsConsistent (build_quality host since until interval results).counts
unfolding build_quality
build_quality-IsConsistent host since until interval results =
    scan_from-IsConsistent since until (max_gap_of interval) results empty_scan
      empty_scan-IsConsistent
