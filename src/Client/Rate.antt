-- ===== src/Client/Rate.antt =====
-- The quota that internal/cloudflare/client.go keeps: RateLimit, checkBudget and recordRateLimit. The
-- three headers are given as Client.Headers parses them.
pub mod Guard
pub mod Tests
use cftm.Base.{
  ℕ, Bool, true, false, not, ◌||◌, ◌+◌, ◌*◌, nat_eq, ltb, leb, Option, none, some, if◌then◌else◌,
}
use cftm.Model.Clock.{Time, Duration, after, is_zero, second}

pub record RateLimit : Type 0 where
  pub remaining : ℕ
  pub quota : ℕ
  pub reset_at : Time
  pub observed_at : Time

-- RateLimit.Known
abbrev pub is_known : RateLimit → Bool
is_known r = not (is_zero r.observed_at)

-- the parsed headers Ratelimit (remaining requests, and the time until the reset), Ratelimit-Policy
-- and Retry-After (0 where there is none)
pub record Headers : Type 0 where
  pub limit : Option (ℕ × Duration)
  pub policy : Option ℕ
  pub retry_after : Duration

-- the fields of Client that the requests change or read
pub record Client : Type 0 where
  pub rate : RateLimit
  pub graphql_rate : RateLimit
  pub budget_reserve : ℕ

abbrev pub default_budget_reserve : ℕ
default_budget_reserve = 100

abbrev pub graphql_budget_reserve : ℕ
graphql_budget_reserve = 25

abbrev pub default_retry_after : Duration
default_retry_after = 300 * second

abbrev pub rate_of : Client → Bool → RateLimit
rate_of c graphql = if graphql then c.graphql_rate else c.rate

abbrev pub reserve_of : Client → Bool → ℕ
reserve_of c graphql = if graphql then graphql_budget_reserve else c.budget_reserve

-- checkBudget; `false` is ErrBudgetGuard
unfoldable pub check_budget : Client → Bool → Time → Bool
check_budget c graphql now =
    let rate = rate_of c graphql in
    if not (is_known rate) || after now rate.reset_at
    then true
    else if ltb (reserve_of c graphql) rate.remaining
    then true
    else false

unfoldable pub with_limit : Time → Option (ℕ × Duration) → RateLimit → RateLimit
with_limit now none rate = rate
with_limit now (some (remaining, reset_in)) rate = record rate {
  remaining = remaining;
  reset_at = now + reset_in;
  observed_at = now;
}

unfoldable pub with_policy : Option ℕ → RateLimit → RateLimit
with_policy none rate = rate
with_policy (some quota) rate = record rate { quota = quota }

-- the wait after a 429
unfoldable pub wait_after : Duration → Duration
wait_after retry_after = if leb retry_after 0 then default_retry_after else retry_after

-- what recordRateLimit does to one quota
unfoldable pub observe : Headers → ℕ → Time → RateLimit → RateLimit
observe h status now rate =
    let noted = with_policy h.policy (with_limit now h.limit rate) in
    if nat_eq status 429
    then record noted {
      remaining = 0;
      reset_at = now + wait_after h.retry_after;
      observed_at = now;
    }
    else noted

-- recordRateLimit
unfoldable pub record_rate_limit : Client → Headers → ℕ → Bool → Time → Client
record_rate_limit c h status graphql now =
    if graphql
    then record c { graphql_rate = observe h status now c.graphql_rate }
    else record c { rate = observe h status now c.rate }
