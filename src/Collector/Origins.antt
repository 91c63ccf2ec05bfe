-- ===== src/Collector/Origins.antt =====
-- CollectRequestOrigins and what it calls, of internal/collector/origins.go, over what the API and the
-- database answer. Maps that are only looked up are functions; the loops over maps go in the order of
-- the rules and of the groups.
pub mod Http
pub mod Countries
pub mod Partial
mod Tests
use cftm.Base.{
  ℕ, ◌+◌, String, Bool, true, false, not, ◌||◌, ◌&&◌, ◌==◌, nat_eq, leb, length, Option, none, some,
  List, [], ◌∷◌, ◌++◌, map, exists_by, filter_by, merge_all, if◌then◌else◌,
}
use cftm.Base.Text.{◌<>◌, to_lower, to_upper, trim_space}
use cftm.Model.{IngressRule, Event}
use cftm.Model.Clock.{Time, Duration, ago}
use cftm.Model.Kind
use cftm.Client.Zones.{Zone, AnalyticsLimits}
use cftm.Store.Origins.{
  RequestOrigin, origin_source_login, unknown_country, merge_origin, same_country,
  replace_request_origins, request_origins,
}
use cftm.Store.Tables.{stamp}
use cftm.Collector.Capabilities.{
  Capabilities, Call, CallError, failed, answered, note_call, error_of, error_text,
  cap_login_analytics,
}
use Http.{HttpOrigins, HttpWorld, http_origins, normalize_country}

-- LoginGroup of internal/cloudflare/analytics.go
pub record LoginGroup : Type 0 where
  pub country : String
  pub succeeded : Bool
  pub attempts : ℕ

-- what one group adds to the entry of its country
unfoldable pub login_entry : Time → Time → LoginGroup → RequestOrigin
login_entry from now g = record {
  source = origin_source_login;
  hostname = "";
  path = "";
  country = normalize_country g.country;
  allowed = if g.succeeded then g.attempts else 0;
  denied = if g.succeeded then 0 else g.attempts;
  requests = g.attempts;
  sampled = false;
  window = from;
  last_at = now;
}

-- the entries by country
unfoldable pub login_entries : Time → Time → List LoginGroup → List RequestOrigin
login_entries from now groups =
    merge_all same_country merge_origin [] (map (login_entry from now) groups)

-- loginOrigins: the entries and the error
unfoldable pub login_origins :
    Duration → Time → Call (List LoginGroup) → List RequestOrigin × List String
login_origins window now (failed e) = ([], ("access login analytics: " <> error_text e) ∷ [])
login_origins window now (answered groups) = (login_entries (ago now window) now groups, [])

-- the countries that newCountryEvents announces, but for those announced before
abbrev pub is_new : (String → Bool) → (String → Bool) → String → Bool
is_new previous expected country =
    not (country == "" || country == unknown_country)
    && not (previous country || expected (to_lower country))

abbrev pub country_event : Time → RequestOrigin → Event
country_event now o = record {
  id = 0;
  timestamp = now;
  kind = Kind.origin_country;
  tunnel_id = "";
  hostname = o.hostname;
  from_state = "";
  to_state = o.country;
  message = "First requests seen from " <> o.country;
}

-- the loop of newCountryEvents, with the countries announced so far
unfoldable pub new_events_from :
    (String → Bool) → (String → Bool) → Time → List String → List RequestOrigin → List Event
new_events_from previous expected now seen [] = []
new_events_from previous expected now seen (o ∷ os) =
    let announce =
      is_new previous expected o.country && not (exists_by (λ s. s == o.country) seen) in
    let rest =
      new_events_from previous expected now (if announce then o.country ∷ seen else seen) os in
    if announce then country_event now o ∷ rest else rest

-- newCountryEvents
unfoldable pub new_country_events :
    (String → Bool) → (String → Bool) → Time → List RequestOrigin → List Event
new_country_events expected previous now origins = new_events_from previous expected now [] origins

-- knownCountries
unfoldable pub known_countries : List RequestOrigin → String → Bool
known_countries rows country = exists_by (λ o. o.country == country) (request_origins rows)

pub record World : Type 0 where
  pub http : HttpWorld
  pub logins : Call (List LoginGroup)
  -- whether RequestOrigins, ReplaceRequestOrigins and the two SetMeta get through to the database
  pub reads_known : Bool
  pub saves : Bool
  pub saves_window : Bool
  pub saves_timestamp : Bool
  -- the map ExpectedCountries of the configuration
  pub expected : String → Bool

-- the table request_origins and what is cached with it
pub record State : Type 0 where
  pub rows : List RequestOrigin
  pub capabilities : Capabilities
  -- OriginWindow and RequestOriginsAt
  pub window : Duration
  pub built_at : Time

-- what a collection leaves, with the events it hands to appendEvents and its errors
pub record Collected : Type 0 where
  pub state : State
  pub events : List Event
  pub errors : List String

abbrev pub unless : Bool → String → List String
unless ok error = if ok then [] else error ∷ []

-- the statements of CollectRequestOrigins once there is something to store
unfoldable pub store_origins :
    World → State → Duration → Time → List RequestOrigin → List String → Collected
store_origins w st effective now origins errors =
    let previous = if w.reads_known then known_countries st.rows else λ c. false in
    let errs = errors ++ unless w.reads_known "read stored origins" in
    if w.saves
    then record {
      state = record st {
        rows = replace_request_origins origins;
        window = if w.saves_window then effective else st.window;
        built_at = if w.saves_timestamp then stamp now else st.built_at;
      };
      events = new_country_events w.expected previous now origins;
      errors =
          errs
          ++ unless w.saves_window "save origin window"
          ++ unless w.saves_timestamp "save origin timestamp";
    }
    else record { state = st; events = []; errors = errs ++ ("save request origins" ∷ []) }

-- CollectRequestOrigins after the two sources have answered
unfoldable pub join_sources : World → State → Duration → Time → HttpOrigins → Collected
join_sources w st window now http =
    let logins = login_origins window now w.logins in
    let origins = http.origins ++ logins.0 in
    let errors = http.errors ++ logins.1 in
    let noted = record st {
      capabilities = note_call http.capabilities cap_login_analytics (error_of w.logins) now;
    } in
    let effective = if nat_eq http.effective 0 then window else http.effective in
    if nat_eq (length origins) 0 && not (nat_eq (length errors) 0)
    then record { state = noted; events = []; errors = errors }
    else store_origins w noted effective now origins errors

-- CollectRequestOrigins
unfoldable pub collect_request_origins :
    World → State → List IngressRule → Duration → Time → Collected
collect_request_origins w st rules window now =
    join_sources w st window now (http_origins w.http st.capabilities rules window now)
