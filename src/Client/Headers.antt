-- ===== src/Client/Headers.antt =====
-- The parsers of the three rate-limit headers in internal/cloudflare/client.go. An int that holds -1
-- where the source has read nothing is an Option here. Counts of seconds are taken to be below 2^63
-- nanoseconds, beyond which the product in the source wraps around.
pub mod Tightest
mod Tests
use cftm.Base.{
  ℕ, ◌*◌, String, Bool, true, ◌&&◌, ◌==◌, ltb, Option, none, some, List, [], ◌∷◌, if◌then◌else◌,
}
use cftm.Base.Text.{trim_space, cut, split_at}
use cftm.Base.Integers.{ℤ, pos, negsuc, atoi}
use cftm.Model.Clock.{Duration, second}
use cftm.Client.Rate.{Headers}

-- a number that the source takes for nothing if it is negative
abbrev natural : ℤ → Option ℕ
natural (pos n) = some n
natural (negsuc n) = none

-- itemRemaining and itemReset
pub record Item : Type 0 where
  pub remaining : Option ℕ
  pub reset : Option ℕ

-- the switch on the key of a part whose value is a number, if it is one
unfoldable pub set_field : String → Option ℤ → Item → Item
set_field key none item = item
set_field key (some n) item =
    if key == "r"
    then record item { remaining = natural n }
    else if key == "t"
    then record item { reset = natural n }
    else item

unfoldable pub read_part : Item → String → Item
read_part item part =
    let (key, val, found) = cut (trim_space part) "=" in
    if found then set_field (trim_space key) (atoi (trim_space val)) item else item

unfoldable pub read_parts : Item → List String → Item
read_parts item [] = item
read_parts item (part ∷ parts) = read_parts (read_part item part) parts

-- what one policy of the header says
unfoldable pub read_item : String → Item
read_item text = read_parts (record { remaining = none; reset = none }) (split_at b';' text)

-- `remaining` and `resetIn` of the loop
pub record Best : Type 0 where
  pub remaining : Option ℕ
  pub reset_in : Duration

abbrev pub is_tighter : ℕ → Option ℕ → Bool
is_tighter n none = true
is_tighter n (some m) = ltb n m

abbrev reset_or : Option ℕ → Duration → Duration
reset_or none d = d
reset_or (some n) d = n * second

unfoldable pub tighten : Best → Option ℕ → Option ℕ → Best
tighten best none reset = best
tighten best (some n) reset =
    if is_tighter n best.remaining
    then record { remaining = some n; reset_in = reset_or reset best.reset_in }
    else best

unfoldable pub tightest : Best → List String → Best
tightest best [] = best
tightest best (text ∷ texts) =
    let item = read_item text in tightest (tighten best item.remaining item.reset) texts

abbrev with_reset : Option ℕ → Duration → Option (ℕ × Duration)
with_reset none d = none
with_reset (some n) d = some (n, d)

-- parseRateLimitHeader
unfoldable pub parse_rate_limit_header : String → Option (ℕ × Duration)
parse_rate_limit_header v =
    let best = tightest (record { remaining = none; reset_in = 0 }) (split_at b',' v) in
    with_reset best.remaining best.reset_in

abbrev is_larger : ℕ → Option ℕ → Bool
is_larger n none = ltb 0 n
is_larger n (some m) = ltb m n

abbrev larger : Option ℤ → Option ℕ → Option ℕ
larger (some (pos n)) quota = if is_larger n quota then some n else quota
larger _ quota = quota

-- the inner loop of parseRateLimitPolicy
unfoldable pub read_quota : Option ℕ → List String → Option ℕ
read_quota quota [] = quota
read_quota quota (part ∷ parts) =
    let (key, val, found) = cut (trim_space part) "=" in
    read_quota
      (if found && trim_space key == "q" then larger (atoi (trim_space val)) quota else quota) parts

unfoldable pub read_quotas : Option ℕ → List String → Option ℕ
read_quotas quota [] = quota
read_quotas quota (item ∷ items) = read_quotas (read_quota quota (split_at b';' item)) items

-- parseRateLimitPolicy
unfoldable pub parse_rate_limit_policy : String → Option ℕ
parse_rate_limit_policy v = read_quotas none (split_at b',' v)

abbrev after_seconds : Option ℤ → Duration → Duration
after_seconds (some (pos n)) d = n * second
after_seconds _ d = d

abbrev or_zero : Option Duration → Duration
or_zero none = 0
or_zero (some d) = d

-- parseRetryAfter, over `until`, the time from now to an HTTP date if that lies ahead
unfoldable pub parse_retry_after : (String → Option Duration) → String → Duration
parse_retry_after until v =
    if v == "" then 0 else after_seconds (atoi (trim_space v)) (or_zero (until v))

-- what recordRateLimit reads of the headers Ratelimit, Ratelimit-Policy and Retry-After
unfoldable pub read_headers : (String → Option Duration) → String → String → String → Headers
read_headers until limit policy retry_after = record {
  limit = parse_rate_limit_header limit;
  policy = parse_rate_limit_policy policy;
  retry_after = parse_retry_after until retry_after;
}
