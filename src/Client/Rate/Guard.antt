-- ===== src/Client/Rate/Guard.antt =====
-- After a 429 the guard holds until the quota is reset.
use cftm.Base.{Bool, true, false, ◌≡◌, ◌≤◌, ◌<◌, ◌+◌, arith}
use cftm.Model.Clock.{Time}
use cftm.Client.Rate.{Headers, Client, check_budget, observe, record_rate_limit, wait_after}

-- Once a 429 is recorded, every request of that kind up to the end of the advertised wait is refused,
-- and up to five minutes where no wait is advertised.
pub blocked_after_429 :
    (c : Client) (h : Headers) (graphql : Bool) (now later : Time)
    → 0 < now
    → later ≤ now + wait_after h.retry_after
    → check_budget (record_rate_limit c h 429 graphql now) graphql later ≡ false
unfolding check_budget record_rate_limit observe
blocked_after_429 c h true now later known soon = ground arith
blocked_after_429 c h false now later known soon = ground arith
