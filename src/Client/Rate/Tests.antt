-- ===== src/Client/Rate/Tests.antt =====
-- A 429 without advice on the wait.
use cftm.Base.{◌≡◌, refl, true, false, none, ◌*◌}
use cftm.Model.Clock.{second}
use cftm.Client.Rate.{Client, RateLimit, Headers, check_budget}

abbrev unseen : RateLimit
unseen = record { remaining = 0; quota = 0; reset_at = 0; observed_at = 0 }

abbrev pub client : Client
client = record { rate = unseen; graphql_rate = unseen; budget_reserve = 100 }

abbrev pub bare : Headers
bare = record { limit = none; policy = none; retry_after = 0 }

open_before : check_budget client false (10 * second) ≡ true
unfolding check_budget
open_before = refl
