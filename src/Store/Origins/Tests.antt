-- ===== src/Store/Origins/Tests.antt =====
-- Runs of the table of request origins.
use cftm.Base.{ℕ, String, false, List, [], ◌∷◌, ◌≡◌, sum_by}
use cftm.Store.Origins.{
  RequestOrigin, origin_source_http, replace_request_origins, origin_country_totals,
}
use cftm.Store.Origins.Totals.{of_country, totals-stored}

abbrev origin : String → String → ℕ → RequestOrigin
origin hostname country n = record {
  source = origin_source_http;
  hostname = hostname;
  path = "/";
  country = country;
  allowed = n;
  denied = 0;
  requests = n;
  sampled = false;
  window = 0;
  last_at = 0;
}

abbrev collected : List RequestOrigin
collected = origin "a" "DE" 3 ∷ origin "a" "FR" 5 ∷ origin "a" "DE" 4 ∷ origin "b" "DE" 1 ∷ []

totals-stored_example :
    sum_by
      (of_country "DE" (λ o. o.requests))
      (origin_country_totals (replace_request_origins collected))
    ≡ sum_by (of_country "DE" (λ o. o.requests)) collected
totals-stored_example = totals-stored "DE" collected
