-- ===== src/Server/Quality.antt =====
-- tunnelQuality and buildQuality of internal/server/quality.go, less the drawing and the fields that
-- are copied from the configuration. Latencies are natural numbers of milliseconds, and a mean or a
-- share is kept as its two parts.
pub mod Totals
pub mod Choice
pub mod Percentiles
mod Tests
use cftm.Base.{
  ℕ, suc, ◌+◌, ◌-◌, ◌*◌, ◌/◌, String, Bool, true, false, not, ◌||◌, ◌&&◌, ◌==◌, nat_eq, ltb, leb,
  length, get_or, set, replicate, Option, none, some, List, [], ◌∷◌, map, order_by, sort_by,
  text_le, if◌then◌else◌,
}
use cftm.Model.{IngressRule, ProbeResult}
use cftm.Model.Clock.{Time, Duration, second, day, zero_time, is_zero, after}
use cftm.Probe.{is_failure}
use cftm.Probe.Class
use cftm.Prober.{targets}
use cftm.Store.Samples.{probe_history}
use cftm.Store.Tables.{Tables}

-- qualityBuckets
abbrev pub quality_buckets : ℕ
quality_buckets = 288

-- qualityBucket
pub record QualityBucket : Type 0 where
  pub count : ℕ
  pub failures : ℕ
  pub excluded : ℕ
  pub pairs : ℕ
  pub sum : ℕ
  pub low : ℕ
  pub high : ℕ
  pub variation : ℕ
  pub first : Time
  pub last : Time
  pub broken : Bool

abbrev pub empty_bucket : QualityBucket
empty_bucket = record {
  count = 0;
  failures = 0;
  excluded = 0;
  pairs = 0;
  sum = 0;
  low = 0;
  high = 0;
  variation = 0;
  first = zero_time;
  last = zero_time;
  broken = false;
}

-- the variables of the loop of buildQuality and the counters of TunnelQuality that it changes
pub record Scan : Type 0 where
  pub samples : ℕ
  pub successful : ℕ
  pub failures : ℕ
  pub excluded : ℕ
  pub last_sample : Time
  pub latencies : List ℕ
  pub previous : Option ProbeResult
  pub variation : ℕ
  pub pairs : ℕ
  pub buckets : List QualityBucket

abbrev pub empty_scan : Scan
empty_scan = record {
  samples = 0;
  successful = 0;
  failures = 0;
  excluded = 0;
  last_sample = zero_time;
  latencies = [];
  previous = none;
  variation = 0;
  pairs = 0;
  buckets = replicate quality_buckets empty_bucket;
}

abbrev five_minutes : Duration
five_minutes = 300 * second

abbrev min_of : ℕ → ℕ → ℕ
min_of a b = if ltb b a then b else a

abbrev max_of : ℕ → ℕ → ℕ
max_of a b = if ltb a b then b else a

-- the bucket of a time
unfoldable pub bucket_index : Time → Time → ℕ
bucket_index since t = min_of ((t - since) / five_minutes) (quality_buckets - 1)

-- math.Abs of a difference
abbrev pub distance : ℕ → ℕ → ℕ
distance a b = (a - b) + (b - a)

-- what a probe that is not OK changes in its bucket
unfoldable pub bad_bucket : ProbeResult → QualityBucket → QualityBucket
bad_bucket r b =
    if is_failure r.class
    then record b { failures = suc b.failures; broken = true }
    else record b { excluded = suc b.excluded; broken = true }

-- the branch of a probe that is not OK
unfoldable pub add_bad : ProbeResult → ℕ → Scan → Scan
add_bad r i s = record s {
  samples = suc s.samples;
  last_sample = r.checked_at;
  failures = if is_failure r.class then suc s.failures else s.failures;
  excluded = if is_failure r.class then s.excluded else suc s.excluded;
  previous = none;
  buckets = set s.buckets i (bad_bucket r (get_or s.buckets i empty_bucket));
}

-- how far the latency lies from that of the probe before, and whether there was such a probe; the
-- difference counts if it is `near`
pub data Step : Type 0 where
  fresh : Step
  near : (delta : ℕ) → Step
  far : Step

unfoldable pub step_of : Duration → Option ProbeResult → ProbeResult → Step
step_of max_gap none r = Step.fresh
step_of max_gap (some p) r =
    if ltb p.checked_at r.checked_at && leb (r.checked_at - p.checked_at) max_gap
    then Step.near (distance r.latency_ms p.latency_ms)
    else Step.far

-- the latency goes into its bucket
abbrev pub timed_bucket : ProbeResult → QualityBucket → QualityBucket
timed_bucket r b = record b {
  count = suc b.count;
  sum = b.sum + r.latency_ms;
  low = if nat_eq b.count 0 then r.latency_ms else min_of b.low r.latency_ms;
  high = max_of b.high r.latency_ms;
  first = if nat_eq b.count 0 then r.checked_at else b.first;
  last = r.checked_at;
}

unfoldable pub ok_bucket : ProbeResult → Step → QualityBucket → QualityBucket
ok_bucket r Step.fresh b = timed_bucket r b
ok_bucket r (Step.near delta) b = record (timed_bucket r b) {
  variation = b.variation + delta;
  pairs = suc b.pairs;
}
ok_bucket r Step.far b = record (timed_bucket r b) { broken = b.broken || ltb 1 (suc b.count) }

abbrev pub step_variation : Step → ℕ
step_variation (Step.near delta) = delta
step_variation _ = 0

abbrev pub step_pairs : Step → ℕ
step_pairs (Step.near delta) = 1
step_pairs _ = 0

-- the branch of a probe that is OK
unfoldable pub add_ok : ProbeResult → ℕ → Step → Scan → Scan
add_ok r i step s = record s {
  samples = suc s.samples;
  last_sample = r.checked_at;
  latencies = r.latency_ms ∷ s.latencies;
  successful = suc s.successful;
  previous = some r;
  variation = s.variation + step_variation step;
  pairs = s.pairs + step_pairs step;
  buckets = set s.buckets i (ok_bucket r step (get_or s.buckets i empty_bucket));
}

-- one pass of the loop of buildQuality
unfoldable pub add_result : Time → Time → Duration → ProbeResult → Scan → Scan
add_result since until max_gap r s =
    if not (after r.checked_at since) || after r.checked_at until
    then s
    else if r.class == Class.ok
    then add_ok r (bucket_index since r.checked_at) (step_of max_gap s.previous r) s
    else add_bad r (bucket_index since r.checked_at) s

-- the loop of buildQuality
unfoldable pub scan : Time → Time → Duration → List ProbeResult → Scan → Scan
scan since until max_gap [] s = s
scan since until max_gap (r ∷ rs) s =
    scan since until max_gap rs (add_result since until max_gap r s)

-- twice the median of the latencies
unfoldable pub median_twice : List ℕ → Option ℕ
median_twice [] = none
median_twice (x ∷ xs) =
    let sorted = sort_by (λ n. n) (x ∷ xs) in
    let n = length (x ∷ xs) in some (get_or sorted ((n - 1) / 2) 0 + get_or sorted (n / 2) 0)

-- the 95th percentile; 0.95 n in floating point is rounded to a whole number whenever it is one
unfoldable pub p95_ms : List ℕ → Option ℕ
p95_ms [] = none
p95_ms (x ∷ xs) =
    let sorted = sort_by (λ n. n) (x ∷ xs) in
    let n = length (x ∷ xs) in some (get_or sorted ((95 * n + 99) / 100 - 1) 0)

-- maxGap
abbrev pub max_gap_of : Duration → Duration
max_gap_of interval = interval + interval / 2

-- TunnelQuality of internal/web/quality.go, as buildQuality fills it; a mean or a share is given as
-- the sum and what divides it
pub record TunnelQuality : Type 0 where
  pub hostname : String
  pub since : Time
  pub until : Time
  pub stale : Bool
  pub counts : Scan
  pub median : Option ℕ
  pub p95 : Option ℕ
  pub variation : Option (ℕ × ℕ)
  pub failure_percent : Option (ℕ × ℕ)

abbrev pub ratio : ℕ → ℕ → Option (ℕ × ℕ)
ratio a n = if nat_eq n 0 then none else some (a, n)

-- buildQuality
unfoldable pub build_quality : String → Time → Time → Duration → List ProbeResult → TunnelQuality
build_quality host since until interval results =
    let s = scan since until (max_gap_of interval) results empty_scan in
    record {
      hostname = host;
      since = since;
      until = until;
      stale = not (is_zero s.last_sample) && ltb (max_gap_of interval) (until - s.last_sample);
      counts = s;
      median = median_twice s.latencies;
      p95 = p95_ms s.latencies;
      variation = ratio s.variation s.pairs;
      failure_percent = ratio (100 * s.failures) (s.successful + s.failures);
    }

-- the hostnames of the page, in order
unfoldable pub quality_hostnames : List IngressRule → List String
quality_hostnames rules = order_by text_le (map (λ t. t.hostname) (targets rules (λ h. false)))

-- sort.SearchStrings: the first text that is not before the one searched
unfoldable pub search_strings : List String → String → Option String
search_strings [] h = none
search_strings (s ∷ ss) h = let rest = search_strings ss h in if text_le h s then some s else rest

abbrev pub same_text : String → Option String → Option String
same_text h none = none
same_text h (some s) = if s == h then some h else none

abbrev pub first_text : List String → String
first_text [] = ""
first_text (s ∷ ss) = s

-- the hostname that tunnelQuality shows, `none` for errQualityHostname
unfoldable pub choose_hostname : List String → String → Option String
choose_hostname hosts h =
    if not (h == "") then same_text h (search_strings hosts h) else some (first_text hosts)

-- what tunnelQuality returns: errQualityHostname, a page with no hostname to show, or one with its
-- data
pub data Outcome : Type 0 where
  refused : Outcome
  unprobed : Outcome
  shown : TunnelQuality → Outcome

-- the day before `now`, in whole seconds
abbrev pub until_of : Time → Time
until_of now = now / second * second

abbrev show_hostname : Tables → Time → Duration → Option String → Outcome
show_hostname db now interval none = Outcome.refused
show_hostname db now interval (some host) =
    let until = until_of now in
    if host == ""
    then Outcome.unprobed
    else Outcome.shown (
        build_quality host (until - day) until interval (probe_history db host (until - day) until))

-- tunnelQuality, where the query of the history succeeds
unfoldable pub tunnel_quality : Tables → List IngressRule → String → Time → Duration → Outcome
tunnel_quality db rules h now interval =
    show_hostname db now interval (choose_hostname (quality_hostnames rules) h)
