-- ===== src/Store/Origins.antt =====
-- internal/store/origins.go: the table request_origins, with the rows as they are read back.
pub mod Totals
mod Tests
use cftm.Base.{
  ℕ, ◌+◌, max, String, Bool, true, false, not, ◌||◌, ◌&&◌, ◌==◌, nat_eq, ltb, List, [], map,
  merge_all, order_by, text_le, if◌then◌else◌,
}
use cftm.Model.Clock.{Time, zero_time}
use cftm.Store.Tables.{stamp}

abbrev pub origin_source_http : String
origin_source_http = "http"

abbrev pub origin_source_login : String
origin_source_login = "access_login"

abbrev pub unknown_country : String
unknown_country = "XX"

pub record RequestOrigin : Type 0 where
  pub source : String
  pub hostname : String
  pub path : String
  pub country : String
  pub allowed : ℕ
  pub denied : ℕ
  pub requests : ℕ
  pub sampled : Bool
  pub window : Time
  pub last_at : Time

-- boolToInt
abbrev pub bool_to_int : Bool → ℕ
bool_to_int true = 1
bool_to_int false = 0

abbrev pub origin_row : RequestOrigin → RequestOrigin
origin_row o = record o { window = stamp o.window; last_at = stamp o.last_at }

-- ON CONFLICT(source, hostname, path, country)
unfoldable pub same_key : RequestOrigin → RequestOrigin → Bool
same_key a b =
    a.source == b.source && a.hostname == b.hostname && a.path == b.path && a.country == b.country

-- DO UPDATE SET
abbrev pub merge_origin : RequestOrigin → RequestOrigin → RequestOrigin
merge_origin row o = record row {
  allowed = row.allowed + o.allowed;
  denied = row.denied + o.denied;
  requests = row.requests + o.requests;
  sampled = not (nat_eq (max (bool_to_int row.sampled) (bool_to_int o.sampled)) 0);
  last_at = max row.last_at o.last_at;
}

-- ReplaceRequestOrigins: the table afterwards
unfoldable pub replace_request_origins : List RequestOrigin → List RequestOrigin
replace_request_origins origins = merge_all same_key merge_origin [] (map origin_row origins)

-- a DESC, then b, c
abbrev pub busier : RequestOrigin → RequestOrigin → Bool
busier a b =
    ltb b.requests a.requests
    || nat_eq a.requests b.requests
      && (if a.country == b.country
          then text_le a.hostname b.hostname
          else text_le a.country b.country)

-- RequestOrigins
unfoldable pub request_origins : List RequestOrigin → List RequestOrigin
request_origins rows = order_by busier rows

-- a row as GROUP BY country sees it
abbrev pub group_row : RequestOrigin → RequestOrigin
group_row o = record o { source = ""; hostname = ""; path = ""; window = zero_time }

unfoldable pub same_country : RequestOrigin → RequestOrigin → Bool
same_country a b = a.country == b.country

-- OriginCountryTotals
unfoldable pub origin_country_totals : List RequestOrigin → List RequestOrigin
origin_country_totals rows =
    order_by busier (merge_all same_country merge_origin [] (map group_row rows))
