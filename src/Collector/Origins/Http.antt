-- ===== src/Collector/Origins/Http.antt =====
-- httpOrigins, toHTTPOrigins, servedHostnames, zonesServing and normalizeCountry of
-- internal/collector/origins.go.
use cftm.Base.{
  ℕ, String, Bool, ◌||◌, ◌==◌, nat_eq, leb, ltb, length, Option, none, some, List, [], ◌∷◌, ◌++◌,
  map, exists_by, filter_by, filter_map, holds, if◌then◌else◌,
}
use cftm.Base.Text.{◌<>◌, to_lower, to_upper, trim_space}
use cftm.Model.{IngressRule}
use cftm.Model.Clock.{Time, Duration, ago}
use cftm.Health.{is_published}
use cftm.Client.Zones.{Zone, AnalyticsLimits, zone_for, clamp_window}
use cftm.Store.Origins.{RequestOrigin, origin_source_http, unknown_country}
use cftm.Collector.Capabilities.{
  Capabilities, Call, CallError, failed, answered, note_call, error_text, cap_zones,
  cap_zone_analytics,
}

-- OriginGroup of internal/cloudflare/analytics.go
pub record OriginGroup : Type 0 where
  pub country : String
  pub hostname : String
  pub path : String
  pub status : ℕ
  pub requests : ℕ
  pub sampled : Bool

-- ListZones, HTTPRequestsLimits and HTTPRequestsByCountry, the last two by the zone's id
pub record HttpWorld : Type 0 where
  pub zones : Call (List Zone)
  pub limits : String → Call AnalyticsLimits
  pub groups : String → Duration → Call (List OriginGroup)

-- normalizeCountry
unfoldable pub normalize_country : String → String
normalize_country code =
    let country = to_upper (trim_space code) in
    if country == "" || country == "XX" || country == "T1" then unknown_country else country

-- servedHostnames, as the hostnames of the published rules in lower case
unfoldable pub served_hostnames : List IngressRule → List String
served_hostnames rules = map (λ r. to_lower r.hostname) (filter_by is_published rules)

-- zonesServing
unfoldable pub zones_serving : List Zone → List String → List Zone
zones_serving zones hosts =
    filter_by (λ z. exists_by (λ host. holds (λ best. best.id == z.id) (zone_for zones host)) hosts)
      zones

abbrev pub http_origin : String → Time → Time → OriginGroup → RequestOrigin
http_origin host from to g = record {
  source = origin_source_http;
  hostname = host;
  path = g.path;
  country = normalize_country g.country;
  allowed = if leb 400 g.status then 0 else g.requests;
  denied = if leb 400 g.status then g.requests else 0;
  requests = g.requests;
  sampled = g.sampled;
  window = from;
  last_at = to;
}

-- toHTTPOrigins
unfoldable pub to_http_origins : List OriginGroup → List String → Time → Time → List RequestOrigin
to_http_origins groups served from to =
    filter_map
      (λ g.
        if exists_by (λ host. host == to_lower g.hostname) served
        then some (http_origin (to_lower g.hostname) from to g)
        else none)
      groups

-- what the loop of httpOrigins has gathered
pub record Gathered : Type 0 where
  pub origins : List RequestOrigin
  pub effective : Duration
  pub errors : List String
  pub last_error : Option CallError

abbrev pub gather_error : Gathered → String → CallError → Gathered
gather_error acc context e = record acc {
  errors = acc.errors ++ ((context <> ": " <> error_text e) ∷ []);
  last_error = some e;
}

-- the effective window once a zone's window is known
abbrev pub narrowed : Duration → Duration → Duration
narrowed effective zone_window =
    if nat_eq effective 0 || ltb zone_window effective then zone_window else effective

unfoldable pub gather_groups :
    List String → Duration → Time → Zone → Gathered → Call (List OriginGroup) → Gathered
gather_groups served zone_window now z acc (failed e) =
    gather_error acc ("http analytics for " <> z.name) e
gather_groups served zone_window now z acc (answered groups) = record acc {
  origins = acc.origins ++ to_http_origins groups served (ago now zone_window) now;
}

unfoldable pub gather_zone :
    HttpWorld → List String → Duration → Time → Zone → Gathered → Call AnalyticsLimits → Gathered
gather_zone w served window now z acc (failed e) =
    gather_error acc ("analytics limits for " <> z.name) e
gather_zone w served window now z acc (answered limits) =
    let zone_window = clamp_window limits window in
    gather_groups served zone_window now z
      (record acc { effective = narrowed acc.effective zone_window }) (w.groups z.id zone_window)

-- the loop of httpOrigins
unfoldable pub gather : HttpWorld → List String → Duration → Time → Gathered → List Zone → Gathered
gather w served window now acc [] = acc
gather w served window now acc (z ∷ zones) =
    gather w served window now (gather_zone w served window now z acc (w.limits z.id)) zones

-- what httpOrigins returns, with the capabilities it has noted
pub record HttpOrigins : Type 0 where
  pub origins : List RequestOrigin
  pub effective : Duration
  pub errors : List String
  pub capabilities : Capabilities

unfoldable pub from_zones :
    HttpWorld → Capabilities → List String → Duration → Time → Call (List Zone) → HttpOrigins
from_zones w caps served window now (failed e) = record {
  origins = [];
  effective = 0;
  errors = ("list zones: " <> error_text e) ∷ [];
  capabilities = note_call caps cap_zones (some e) now;
}
from_zones w caps served window now (answered zones) =
    let acc =
      gather w served window now
        (record { origins = []; effective = 0; errors = []; last_error = none })
        (zones_serving zones served) in
    record {
      origins = acc.origins;
      effective = acc.effective;
      errors = acc.errors;
      capabilities =
          note_call (note_call caps cap_zones none now) cap_zone_analytics acc.last_error now;
    }

-- httpOrigins, where Ingress gets through to the database
unfoldable pub http_origins :
    HttpWorld → Capabilities → List IngressRule → Duration → Time → HttpOrigins
http_origins w caps rules window now =
    let served = served_hostnames rules in
    let listed = from_zones w caps served window now w.zones in
    if nat_eq (length served) 0
    then record { origins = []; effective = 0; errors = []; capabilities = caps }
    else listed
