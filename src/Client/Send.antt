-- ===== src/Client/Send.antt =====
-- The retry loop of internal/cloudflare/client.go: send, attempt and retryable.
pub mod Bounds
mod Tests
use cftm.Base.{
  ℕ, zero, suc, String, Bool, true, false, not, ◌||◌, ◌-◌, nat_eq, ltb, leb, Option, none, some,
  if◌then◌else◌,
}
use cftm.Model.Clock.{Time}
use cftm.Client.Rate.{Client, Headers, check_budget, record_rate_limit}

abbrev pub max_attempts : ℕ
max_attempts = 3

-- the errors that the loop tells apart
pub data Error : Type 0 where
  -- context.Canceled or context.DeadlineExceeded
  canceled : Error
  -- ErrBudgetGuard
  budget_guard : Error
  -- *APIError, by its status code
  api : ℕ → Error
  -- what net/http reports otherwise
  transport : String → Error

-- retryable
unfoldable pub retryable : Error → Bool
retryable canceled = false
retryable budget_guard = true
retryable (api status) = leb 500 status
retryable (transport text) = true

abbrev has_status : (ℕ → Bool) → Error → Bool
has_status test (api status) = test status
has_status test canceled = false
has_status test budget_guard = false
has_status test (transport text) = false

-- APIError.IsAuth
unfoldable pub is_auth : Error → Bool
is_auth e = has_status (λ s. nat_eq s 401 || nat_eq s 403) e

-- APIError.IsRateLimited
unfoldable pub is_rate_limited : Error → Bool
is_rate_limited e = has_status (λ s. nat_eq s 429) e

-- APIError.IsNotFound
unfoldable pub is_not_found : Error → Bool
is_not_found e = has_status (λ s. nat_eq s 404) e

-- what one request gets: an error of the transport, or a response whose body may fail to be read
pub data Reply : Type 0 where
  no_response : Error → Reply
  response : ℕ → Headers → Option String → Reply

pub data Outcome : Type 0 where
  body : String → Outcome
  error : Error → Outcome

-- attempt, after the response: the status decides
unfoldable pub of_status : ℕ → String → Outcome
of_status status text = if ltb status 200 || ltb 299 status then error (api status) else body text

unfoldable pub attempt : Client → Bool → Time → Reply → Outcome × Client
attempt c graphql now (no_response e) = (error e, c)
attempt c graphql now (response status h none) =
    (error (transport "read body"), record_rate_limit c h status graphql now)
attempt c graphql now (response status h (some text)) =
    (of_status status text, record_rate_limit c h status graphql now)

-- what the outside does at the attempt with a number: when it is, what it answers, and whether the
-- context outlives the wait before it
pub record Outside : Type 0 where
  pub now : ℕ → Time
  pub reply : ℕ → Reply
  pub waits : ℕ → Bool

pub record Sent : Type 0 where
  pub outcome : Outcome
  pub client : Client
  -- how many requests left
  pub requests : ℕ

abbrev pub one_more : Sent → Sent
one_more s = record s { requests = suc s.requests }

abbrev is_final : Outcome → Bool
is_final (body text) = true
is_final (error e) = not (retryable e)

-- the loop of send, with the number of attempts that are left after this one
unfoldable pub send_from : Outside → Bool → ℕ → Client → ℕ → Sent
send_from out graphql zero c n =
    let a = attempt c graphql (out.now n) (out.reply n) in
    record { outcome = a.0; client = a.1; requests = 1 }
send_from out graphql (suc left) c n =
    let a = attempt c graphql (out.now n) (out.reply n) in
    let again = one_more (send_from out graphql left a.1 (suc n)) in
    if is_final a.0
    then record { outcome = a.0; client = a.1; requests = 1 }
    else if not (out.waits (suc n))
    then record { outcome = error canceled; client = a.1; requests = 1 }
    else again

-- send at a time
unfoldable pub send : Outside → Bool → Client → Time → Sent
send out graphql c start =
    let sent = send_from out graphql (max_attempts - 1) c 1 in
    if not (check_budget c graphql start)
    then record { outcome = error budget_guard; client = c; requests = 0 }
    else sent
