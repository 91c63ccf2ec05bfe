-- ===== src/Collector/Origins/Tests.antt =====
-- Runs of the collection of request origins.
use cftm.Base.{
  String, true, false, not, ◌||◌, ◌&&◌, ◌==◌, ◌≡◌, refl, List, [], ◌∷◌, exists_by, sum_by, ◌*◌,
}
use cftm.Model.{IngressRule}
use cftm.Model.Clock.{day}
use cftm.Collector.Capabilities.{failed, answered, api}
use cftm.Store.Origins.{RequestOrigin, replace_request_origins, unknown_country}
use cftm.Collector.Origins.{World, State, LoginGroup, collect_request_origins, store_origins}
use cftm.Collector.Origins.Countries.{store_origins-announces, announces, one, among}
use cftm.Collector.Origins.Partial.{collect_partial, is_http}

abbrev origin : String → String → RequestOrigin
origin source country = record {
  source = source;
  hostname = "www.example.com";
  path = "/";
  country = country;
  allowed = 1;
  denied = 0;
  requests = 1;
  sampled = false;
  window = 0;
  last_at = 0;
}

abbrev before : List RequestOrigin
before = origin "http" "DE" ∷ origin "http" "FR" ∷ []

abbrev collected : List RequestOrigin
collected = origin "http" "DE" ∷ origin "http" "NL" ∷ origin "access_login" "NL" ∷ []

abbrev attempts : LoginGroup
attempts = record { country = "de"; succeeded = true; attempts = 3 }

abbrev world : World
world = record {
  http = record {
    zones = failed (api 403 "status 403");
    limits = λ z. failed (api 403 "status 403");
    groups = λ z w. answered [];
  };
  logins = answered (attempts ∷ []);
  reads_known = true;
  saves = true;
  saves_window = true;
  saves_timestamp = true;
  expected = λ c. false;
}

abbrev held : State
held = record { rows = before; capabilities = []; window = day; built_at = 0 }

abbrev www : IngressRule
www = record {
  tunnel_id = "t1";
  index = 0;
  hostname = "www.example.com";
  path = "";
  service = "http://127.0.0.1:80";
  origin_request = "";
  config_version = 1;
  seen_at = 0;
}

abbrev remembering : State
remembering = record held { rows = replace_request_origins before }

store_origins-announces_example :
    sum_by (announces "NL") (store_origins world remembering day (10 * day) collected []).events
    ≡ one (
        not ("NL" == "" || "NL" == unknown_country)
        && not ((true && among before "NL") || false)
        && among collected "NL")
store_origins-announces_example =
    store_origins-announces world remembering before collected day (10 * day) [] "NL" refl

collect_partial_example :
    exists_by is_http (collect_request_origins world held (www ∷ []) day (10 * day)).state.rows
    ≡ false
collect_partial_example =
    collect_partial world held (www ∷ []) day (10 * day) (api 403 "status 403") attempts [] refl
      refl refl
