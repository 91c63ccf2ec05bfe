-- ===== src/Server/Origins/Tests.antt =====
-- A run of the origin summary.
use cftm.Base.{ℕ, String, false, true, none, List, [], ◌∷◌, ◌≡◌, sum_by}
use cftm.Model.Clock.{day}
use cftm.Store.Origins.{RequestOrigin}
use cftm.Server.Origins.{origin_summary}
use cftm.Server.Origins.Shares.{summary-adds_up}

abbrev origin : String → String → ℕ → RequestOrigin
origin hostname country n = record {
  source = "http";
  hostname = hostname;
  path = "/";
  country = country;
  allowed = n;
  denied = 0;
  requests = n;
  sampled = false;
  window = 0;
  last_at = 0;
}

abbrev rows : List RequestOrigin
rows = origin "a" "DE" 3 ∷ origin "a" "FR" 5 ∷ origin "b" "DE" 4 ∷ []

summary-adds_up_example :
    sum_by (λ c. c.requests) (origin_summary true rows none 0 day).0.countries
    ≡ (origin_summary true rows none 0 day).0.requests
summary-adds_up_example = summary-adds_up true rows none 0 day
