-- ===== src/Server/Origins.antt =====
-- originSummary, sortedCountries and formatWindow of internal/server/viewbuilder.go. The name of a
-- country, which a table of internal/web/countries.go gives for its code, is left out, and a share is
-- kept as its two parts.
pub mod Shares
mod Tests
use cftm.Base.{
  ℕ, ◌+◌, ◌*◌, ◌/◌, String, Bool, true, false, not, ◌||◌, ◌&&◌, ◌==◌, nat_eq, ltb, leb, Option,
  none, some, List, [], map, exists_by, filter_by, distinct, order_by, text_le, sum_by, merge_all,
  if◌then◌else◌,
}
use cftm.Base.Text.{◌<>◌, to_lower, show_nat}
use cftm.Model.{IngressRule}
use cftm.Model.Clock.{Time, Duration, day, hour}
use cftm.Store.Origins.{RequestOrigin, request_origins}

-- OriginCountry of internal/web/viewmodels.go; the share is requests of total, if that is not zero
pub record OriginCountry : Type 0 where
  pub code : String
  pub allowed : ℕ
  pub denied : ℕ
  pub requests : ℕ
  pub total : ℕ

-- OriginBreakdown of internal/web/viewmodels.go
pub record OriginBreakdown : Type 0 where
  pub hostname : String
  pub requests : ℕ
  pub countries : List OriginCountry

-- Origins of internal/web/viewmodels.go
pub record Origins : Type 0 where
  pub enabled : Bool
  pub countries : List OriginCountry
  pub requests : ℕ
  pub collected : Time
  pub window : String
  pub sampled : Bool

-- formatWindow
unfoldable pub format_window : Duration → String
format_window d =
    if nat_eq d 0
    then ""
    else if leb (48 * hour) d
    then show_nat (d / day) <> " days"
    else if leb (24 * hour) d
    then "24 hours"
    else if leb (2 * hour) d
    then show_nat (d / hour) <> " hours"
    else "1 hour"

-- hostnameSet
unfoldable pub hostname_set : List IngressRule → String → Bool
hostname_set rules host =
    exists_by (λ r. not (r.hostname == "") && to_lower r.hostname == host) rules

abbrev pub entry_of : RequestOrigin → OriginCountry
entry_of o = record {
  code = o.country;
  allowed = o.allowed;
  denied = o.denied;
  requests = o.requests;
  total = 0;
}

abbrev pub same_code : OriginCountry → OriginCountry → Bool
same_code a b = a.code == b.code

-- the additions in `add`
abbrev pub add_counts : OriginCountry → OriginCountry → OriginCountry
add_counts a b = record a {
  allowed = a.allowed + b.allowed;
  denied = a.denied + b.denied;
  requests = a.requests + b.requests;
}

-- the map by country that `add` fills
unfoldable pub by_country : List RequestOrigin → List OriginCountry
by_country origins = merge_all same_code add_counts [] (map entry_of origins)

abbrev pub with_share : ℕ → OriginCountry → OriginCountry
with_share total c = record c { total = total }

-- sortedCountries
unfoldable pub sorted_countries : List OriginCountry → ℕ → List OriginCountry
sorted_countries entries total =
    order_by
      (λ a b. ltb b.requests a.requests || nat_eq a.requests b.requests && text_le a.code b.code)
      (map (with_share total) entries)

-- the rows that the summary is about: those of the hostnames asked for, if any were named
unfoldable pub kept_origins : Option (String → Bool) → List RequestOrigin → List RequestOrigin
kept_origins none rows = request_origins rows
kept_origins (some hosts) rows = filter_by (λ o. hosts o.hostname) (request_origins rows)

abbrev pub total_of : List RequestOrigin → ℕ
total_of origins = sum_by (λ o. o.requests) origins

-- the breakdown of one hostname
unfoldable pub breakdown : List RequestOrigin → String → OriginBreakdown
breakdown origins host =
    let entries = by_country (filter_by (λ o. o.hostname == host) origins) in
    let requests = sum_by (λ c. c.requests) entries in
    record { hostname = host; requests = requests; countries = sorted_countries entries requests }

-- the breakdowns of the hostnames that are not empty, busiest first
unfoldable pub breakdowns : List RequestOrigin → List OriginBreakdown
breakdowns origins =
    order_by
      (λ a b.
        ltb b.requests a.requests || nat_eq a.requests b.requests && text_le a.hostname b.hostname)
      (map (breakdown origins) (distinct [] (map (λ o. o.hostname) origins)))

-- originSummary, with what RequestOriginsAt and OriginWindow answer
unfoldable pub origin_summary :
    Bool
    → List RequestOrigin
    → Option (String → Bool)
    → Time
    → Duration
    → Origins × List OriginBreakdown
origin_summary enabled rows hosts collected window =
    let kept = kept_origins hosts rows in
    if not enabled
    then (
      record {
        enabled = false;
        countries = [];
        requests = 0;
        collected = 0;
        window = "";
        sampled = false;
      },
      [],
    )
    else (
      record {
        enabled = true;
        countries = sorted_countries (by_country kept) (total_of kept);
        requests = total_of kept;
        collected = collected;
        window = format_window window;
        sampled = exists_by (λ o. o.sampled) kept;
      },
      breakdowns kept,
    )
