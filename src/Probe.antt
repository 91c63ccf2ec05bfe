-- ===== src/Probe.antt =====
-- internal/prober/classify.go: the classes of probe results.
pub mod Class
mod Laws
mod Tests
use cftm.Base.{
  ℕ, String, Bool, true, false, ◌&&◌, ◌||◌, not, Option, none, some, List, [], ◌∷◌, ◌==◌, nat_eq,
  leb, ltb, if◌then◌else◌, exists_by,
}
use cftm.Base.Text.{◌<>◌, has_prefix, has_suffix, contains, to_lower, to_upper, trim_space}

-- The parts of *http.Response that are read. `location_host` is the host name that url.Parse finds
-- in the Location header, and none where that header is empty or is refused.
pub record Response : Type 0 where
  pub status_code : ℕ
  pub header_keys : List String
  pub location_host : Option String
  pub cache_status : String

-- edgeFailureStatus
unfoldable pub edge_failure_status : ℕ → Option String
edge_failure_status code =
    if nat_eq code 502 || nat_eq code 504 || leb 520 code && leb code 524
    then some Class.origin_error
    else if nat_eq code 530
    then some Class.tunnel_down
    else none

-- hasCloudflareErrorCode
unfoldable pub has_cloudflare_error_code : String → String → Bool
has_cloudflare_error_code body code =
    let lower = to_lower body in
    contains lower ("error code: " <> code) || contains lower ("error " <> code)

ends_in_access_domain : Option String → Bool
ends_in_access_domain none = false
ends_in_access_domain (some host) = has_suffix (to_lower host) ".cloudflareaccess.com"

-- isAccessRedirect
unfoldable pub is_access_redirect : Response → Bool
unfolding ends_in_access_domain
is_access_redirect resp =
    if ltb resp.status_code 300 || ltb 399 resp.status_code
    then false
    else ends_in_access_domain resp.location_host

-- hasAccessMarkers
unfoldable pub has_access_markers : Response → String → Bool
has_access_markers resp body =
    exists_by (λ key. has_prefix (to_lower key) "cf-access") resp.header_keys
    || contains (to_lower body) "cloudflareaccess.com"

unfoldable pub is_cached : String → Bool
is_cached status =
    let s = to_upper (trim_space status) in
    s == "HIT" || s == "STALE" || s == "UPDATING" || s == "REVALIDATED"

-- the part of Classify below the redirect test
classify_origin : Response → String → String
unfolding is_cached
classify_origin resp body =
    if nat_eq resp.status_code 401 && has_access_markers resp body
    then Class.access_challenge
    else if nat_eq resp.status_code 403 && has_access_markers resp body
    then Class.access_denied
    else if is_cached resp.cache_status
    then Class.edge_cached
    else Class.ok

classify_failure : Option String → Response → String → String
classify_failure (some class) resp body =
    if has_cloudflare_error_code body "1033" then Class.tunnel_down else class
classify_failure none resp body =
    if is_access_redirect resp then Class.access_challenge else classify_origin resp body

-- Classify
unfoldable pub classify : Response → String → String
unfolding classify_failure classify_origin
classify resp body = classify_failure (edge_failure_status resp.status_code) resp body

-- What errors.As finds in the chain of a transport error, and its text.
pub record TransportError : Type 0 where
  pub is_dns : Bool
  pub is_net_timeout : Bool
  pub is_url_timeout : Bool
  pub text : String

-- ClassifyError
unfoldable pub classify_error : Option TransportError → String
classify_error none = Class.ok
classify_error (some err) =
    if err.is_dns
    then Class.dns_error
    else if err.is_net_timeout
    then Class.timeout
    else if err.is_url_timeout
    then Class.timeout
    else if contains err.text "tls:" || contains err.text "certificate"
    then Class.tls_error
    else Class.http_error

-- IsHealthy
unfoldable pub is_healthy : String → Bool
is_healthy class = class == Class.ok

-- IsFailure
unfoldable pub is_failure : String → Bool
is_failure class =
    class == Class.tunnel_down
    || class == Class.origin_error
    || class == Class.timeout
    || class == Class.dns_error
    || class == Class.tls_error
    || class == Class.http_error
