-- ===== src/Prober.antt =====
-- internal/prober/prober.go: which hostnames a round probes, what a request carries and what becomes of
-- its answer. What net/http answers is a parameter, and a request is one step: the semaphore and the
-- random delay of ProbeAll only spread the requests in time.
pub mod Hostname
pub mod Targets
mod Tests
use cftm.Base.{
  ℕ, suc, zero, ◌-◌, ◌*◌, String, Bool, true, false, not, ◌||◌, ◌&&◌, ◌==◌, nat_eq, Option, none,
  some, List, [], ◌∷◌, map, filter_by, distinct, if◌then◌else◌,
}
use cftm.Base.Text.{◌<>◌, to_lower, has_prefix, byte_len}
use cftm.Model.{IngressRule, ProbeResult}
use cftm.Model.Clock.{Time, Duration, second}
use cftm.Probe.{Response, TransportError, classify, classify_error}
use cftm.Probe.Class
use Hostname.{matches_hostname}
use Prim.Native.String

pub record Config : Type 0 where
  pub timeout : Duration
  pub concurrency : ℕ
  pub client_id : String
  pub client_secret : String

-- New, on the fields of the configuration
unfoldable pub new_config : Config → Config
new_config cfg = record cfg {
  timeout = if nat_eq cfg.timeout 0 then 10 * second else cfg.timeout;
  concurrency = if nat_eq cfg.concurrency 0 then 4 else cfg.concurrency;
}

-- HasServiceToken
unfoldable pub has_service_token : Config → Bool
has_service_token cfg = not (cfg.client_id == "") && not (cfg.client_secret == "")

pub record Target : Type 0 where
  pub hostname : String
  pub use_service_token : Bool

-- isHTTPService
unfoldable pub is_http_service : String → Bool
is_http_service service = has_prefix service "http://" || has_prefix service "https://"

-- the rules that the loop of Targets does not skip at once
unfoldable pub is_probeable : IngressRule → Bool
is_probeable r = not (not (is_http_service r.service) || not (matches_hostname r.hostname))

abbrev pub target_of : (String → Bool) → String → Target
target_of public_hostnames hostname = record {
  hostname = hostname;
  use_service_token = not (public_hostnames (to_lower hostname));
}

-- Targets: the hostnames of the rules that are probeable, each once. The empty hostname, which
-- `distinct` skips as well, is not probeable.
unfoldable pub targets : List IngressRule → (String → Bool) → List Target
targets rules public_hostnames =
    map (target_of public_hostnames)
      (distinct [] (map (λ r. r.hostname) (filter_by is_probeable rules)))

-- the headers of a request
unfoldable pub headers : Config → String → Target → List (String × String)
headers cfg version target =
    ("User-Agent", "cftm/" <> version)
    ∷ ("Accept", "*/*")
    ∷ (if target.use_service_token && has_service_token cfg
        then ("CF-Access-Client-Id", cfg.client_id)
          ∷ ("CF-Access-Client-Secret", cfg.client_secret)
          ∷ []
        else [])

-- strings.ReplaceAll of a text that is not empty, with how much of an occurrence is still to be
-- dropped
unfoldable pub replace_from : String → String → ℕ → String → String
replace_from old new skip String.[] = ""
replace_from old new (suc skip) (String.◌∷◌ c s) = replace_from old new skip s
replace_from old new zero (String.◌∷◌ c s) =
    let within = replace_from old new (byte_len old - 1) s in
    let after = replace_from old new zero s in
    if has_prefix (String.◌∷◌ c s) old then new <> within else String.◌∷◌ c after

-- redactSecrets
unfoldable pub redact_secrets : String → String → String
redact_secrets message secret =
    if secret == "" then message else replace_from secret "[redacted]" 0 message

-- what a request gets: no request at all, an error of the transport, or a response
-- whose body may fail to be read
pub data Reply : Type 0 where
  refused : String → Reply
  unanswered : TransportError → ℕ → Reply
  cut_short : Response → String → ℕ → Reply
  response : Response → String → ℕ → Reply

abbrev pub result : String → Time → ℕ → String → ℕ → String → ProbeResult
result hostname started status class latency error = record {
  hostname = hostname;
  checked_at = started;
  status_code = status;
  class = class;
  latency_ms = latency;
  error = error;
}

-- Probe, after the request
unfoldable pub result_of : Config → Target → Time → Reply → ProbeResult
result_of cfg t started (refused error) = result t.hostname started 0 Class.http_error 0 error
result_of cfg t started (unanswered err latency) =
    result t.hostname started 0 (classify_error (some err)) latency
      (redact_secrets err.text cfg.client_secret)
result_of cfg t started (cut_short resp error latency) =
    result t.hostname started resp.status_code Class.http_error latency ("read body: " <> error)
result_of cfg t started (response resp body latency) =
    result t.hostname started resp.status_code (classify resp body) latency ""

-- Probe; the reply may depend on the headers that were sent
unfoldable pub probe :
    Config → String → (String → List (String × String) → Reply) → Target → Time → ProbeResult
probe cfg version net t started =
    let requested = result_of cfg t started (net t.hostname (headers cfg version t)) in
    if not (matches_hostname t.hostname)
    then result t.hostname started 0 Class.http_error 0 "invalid hostname"
    else requested
