-- ===== src/Health.antt =====
-- internal/collector/health.go: the health findings of one tunnel. Maps from texts to Booleans are
-- functions, with false at a missing key.
mod Silent
pub mod Coverage
pub mod Critical
mod Tests
use cftm.Base.{
  ℕ, ◌-◌, ◌/◌, ◌*◌, String, Bool, not, ◌&&◌, ◌||◌, Option, none, some, List, [], ◌∷◌, ◌++◌, ◌==◌,
  nat_eq, ltb, leb, if◌then◌else◌, length, filter_map, flat_map, filter_by, exists_by,
}
use cftm.Base.Text.{
  ◌<>◌, has_prefix, contains, to_lower, cut, join, show_nat, quote, byte_len, prefix_8,
}
use cftm.Model.{Tunnel, Connector, Connection, IngressRule, AccessApp, ServiceToken}
use cftm.Model.Clock.{Time, Duration, is_zero, day, hour}
use cftm.Model.Status
use cftm.Severity.{info, warning, critical}
use cftm.Finding.{Finding}
use cftm.Finding.Code
use mathlib.Core.Option

abbrev pub expected_connections : ℕ
expected_connections = 4

abbrev pub flap_threshold : ℕ
flap_threshold = 4

abbrev pub flap_window : Duration
flap_window = hour

abbrev pub token_expiry_warning : Duration
token_expiry_warning = 30 * day

-- AlertCoverage of internal/collector/audit.go
pub record AlertCoverage : Type 0 where
  pub readable : Bool
  pub covered : List String

-- AlertCoverage.CoversTunnel
unfoldable pub covers_tunnel : AlertCoverage → String → Bool
covers_tunnel a id = exists_by (λ c. c == id) a.covered

pub record HealthInput : Type 0 where
  pub tunnel : Tunnel
  pub connectors : List Connector
  pub connections : List Connection
  pub ingress : List IngressRule
  pub access_apps : List AccessApp
  pub service_tokens : List ServiceToken
  pub access_audit_available : Bool
  pub expected_public : String → Bool
  pub alert_coverage : AlertCoverage
  pub latest_release : String
  pub recent_changes : ℕ
  pub now : Time

abbrev plain : String → String → String → Finding
plain code severity message = record {
  code = code;
  severity = severity;
  message = message;
  hostname = "";
}

-- isHTTPService
unfoldable pub is_http_service : String → Bool
is_http_service service = has_prefix service "http://" || has_prefix service "https://"

-- `rule.Hostname == "" || !isHTTPService(rule.Service)` skips a rule
unfoldable pub is_published : IngressRule → Bool
unfolding is_http_service
is_published rule = not (rule.hostname == "" || not (is_http_service rule.service))

-- shortID
unfoldable pub short_id : String → String
unfolding prefix_8
short_id id = if leb (byte_len id) 8 then id else prefix_8 id

-- the loop of distinctColos, with the names seen so far
distinct_from : List String → List Connection → List String
distinct_from seen [] = []
distinct_from seen (c ∷ cs) =
    let skip = c.colo_name == "" || exists_by (λ s. s == c.colo_name) seen in
    let rest = distinct_from (if skip then seen else c.colo_name ∷ seen) cs in
    if skip then rest else c.colo_name ∷ rest

-- distinctColos
unfoldable pub distinct_colos : List Connection → List String
unfolding distinct_from
distinct_colos conns = distinct_from [] conns

-- ingressConfigVersion
unfoldable pub ingress_config_version : List IngressRule → ℕ
ingress_config_version [] = 0
ingress_config_version (r ∷ rules) =
    let rest = ingress_config_version rules in
    if ltb 0 r.config_version then r.config_version else rest

-- the switch of Evaluate
unfoldable pub evaluate_status : String → List Finding
evaluate_status status =
    if status == Status.down
    then plain Code.tunnel_down critical "Tunnel has no connection to the Cloudflare edge" ∷ []
    else if status == Status.degraded
    then plain Code.tunnel_degraded warning "Tunnel is serving traffic in a degraded state" ∷ []
    else if status == Status.inactive
    then plain Code.tunnel_inactive info "Tunnel has never been run" ∷ []
    else []

low_connections : ℕ → List Finding
low_connections n =
    if ltb n expected_connections
    then plain Code.low_connections warning
        (show_nat n <> " of " <> show_nat expected_connections <> " edge connections established")
      ∷ []
    else []

single_colo : List String → List Finding
single_colo (colo ∷ []) =
    plain Code.single_colo warning
      ("All edge connections terminate in " <> colo <> ", so a data center outage has no failover")
    ∷ []
single_colo _ = []

version_drift : String → Connector → Option Finding
version_drift latest c =
    if not (c.version == "") && not (c.version == latest)
    then some (
        plain Code.version_drift warning (
          "Connector "
          <> short_id c.id
          <> " runs cloudflared "
          <> c.version
          <> ", latest is "
          <> latest))
    else none

config_drift : ℕ → Connector → Option Finding
config_drift want c =
    if ltb 0 c.config_version && not (nat_eq c.config_version want)
    then some (
        plain Code.config_drift warning (
          "Connector "
          <> short_id c.id
          <> " applied configuration version "
          <> show_nat c.config_version
          <> ", current is "
          <> show_nat want))
    else none

-- evaluateConnectivity, where a connector is registered
connected : HealthInput → List Finding
connected i =
    let want = ingress_config_version i.ingress in
    low_connections (length i.connections)
    ++ single_colo (distinct_colos i.connections)
    ++ (if i.latest_release == ""
        then []
        else filter_map (version_drift i.latest_release) i.connectors)
    ++ (if ltb 0 want then filter_map (config_drift want) i.connectors else [])

-- evaluateConnectivity
unfoldable pub evaluate_connectivity : HealthInput → List Finding
unfolding connected low_connections single_colo version_drift config_drift
evaluate_connectivity i =
    if nat_eq (length i.connectors) 0
    then plain Code.no_connectors critical "No cloudflared connector is registered" ∷ []
    else connected i

evaluate_rule : IngressRule → List Finding
evaluate_rule rule =
    if is_published rule
    then (if contains rule.origin_request "\"noTLSVerify\":true"
        then record {
          code = Code.no_tls_verify;
          severity = info;
          message = "Origin certificate is not verified (noTLSVerify)";
          hostname = rule.hostname;
        }
          ∷ []
        else [])
      ++ (if contains rule.service "//localhost"
          then record {
            code = Code.localhost_origin;
            severity = warning;
            message = "Origin uses localhost; cloudflared tries ::1 first, so prefer 127.0.0.1";
            hostname = rule.hostname;
          }
            ∷ []
          else [])
    else []

-- evaluateIngress
unfoldable pub evaluate_ingress : List IngressRule → List Finding
unfolding evaluate_rule is_published
evaluate_ingress rules = flat_map evaluate_rule rules

-- the `protected` map of evaluateAccessCoverage
unfoldable pub is_protected : List AccessApp → String → Bool
is_protected apps host = exists_by (λ app. exists_by (λ d. to_lower d == host) app.domains) apps

coverage_gap : List AccessApp → (String → Bool) → IngressRule → Option Finding
coverage_gap apps expected_public rule =
    let host = to_lower rule.hostname in
    if not (is_published rule)
    then none
    else if is_protected apps host || expected_public host
    then none
    else some (record {
      code = Code.access_unprotected;
      severity = warning;
      message = "Hostname is publicly reachable without a Cloudflare Access application";
      hostname = rule.hostname;
    })

-- evaluateAccessCoverage
unfoldable pub evaluate_access_coverage : HealthInput → List Finding
unfolding coverage_gap
evaluate_access_coverage i =
    if i.access_audit_available
    then filter_map (coverage_gap i.access_apps i.expected_public) i.ingress
    else []

-- the `served` map of evaluateAccessBypass: the first published rule of a host names it
unfoldable pub served : List IngressRule → String → Option String
served [] host = none
served (r ∷ rules) host =
    let rest = served rules host in
    if is_published r && to_lower r.hostname == host then some r.hostname else rest

-- the raw domains of an application that lie on the host
raw_of_host : String → List String → List String
raw_of_host host raw_domains = filter_by (λ raw. (cut raw "/").0 == host) raw_domains

bypass_via : List String → String
bypass_via [] = ""
bypass_via (p ∷ []) = " via policy " <> quote p
bypass_via ps = " via policies " <> join ps ", "

-- bypassMessage
unfoldable pub bypass_message : AccessApp → String → String
unfolding raw_of_host bypass_via
bypass_message app hostname =
    let scoped = raw_of_host (to_lower hostname) app.raw_domains in
    let scope = if nat_eq (length scoped) 0 then hostname else join scoped ", " in
    "Access application "
    <> quote app.name
    <> " bypasses "
    <> scope
    <> bypass_via app.bypass_policies
    <> ", so those requests are not logged and no Access controls apply"

bypassed_domain : List IngressRule → AccessApp → String → Option Finding
bypassed_domain rules app d =
    Option.map
      (λ hostname. record {
        code = Code.access_bypass;
        severity = warning;
        message = bypass_message app hostname;
        hostname = hostname;
      })
      (served rules (to_lower d))

bypassed_app : List IngressRule → AccessApp → List Finding
bypassed_app rules app =
    if app.has_bypass then filter_map (bypassed_domain rules app) app.domains else []

-- evaluateAccessBypass
unfoldable pub evaluate_access_bypass : HealthInput → List Finding
unfolding bypassed_domain bypassed_app
evaluate_access_bypass i =
    if i.access_audit_available then flat_map (bypassed_app i.ingress) i.access_apps else []

-- `remaining <= 0` is `expires_at <= now`, and int(remaining.Hours()/24) counts whole days
unfoldable pub token_finding : Time → ServiceToken → Option Finding
token_finding now token =
    if is_zero token.expires_at
    then none
    else if leb token.expires_at now
    then some (
        plain Code.token_expiring critical
          ("Access service token " <> quote token.name <> " has expired"))
    else if leb (token.expires_at - now) token_expiry_warning
    then some (
        plain Code.token_expiring warning (
          "Access service token "
          <> quote token.name
          <> " expires in "
          <> show_nat ((token.expires_at - now) / day)
          <> " days"))
    else none

-- evaluateServiceTokens
unfoldable pub evaluate_service_tokens : Time → List ServiceToken → List Finding
unfolding token_finding
evaluate_service_tokens now tokens = filter_map (token_finding now) tokens

-- evaluateAlertCoverage
unfoldable pub evaluate_alert_coverage : AlertCoverage → String → List Finding
evaluate_alert_coverage a id =
    if not a.readable || covers_tunnel a id
    then []
    else plain Code.no_cloudflare_alert info
        "No Cloudflare notification policy would fire if this tunnel goes down"
      ∷ []

unfoldable pub evaluate_flapping : ℕ → List Finding
evaluate_flapping n =
    if ltb flap_threshold n
    then plain Code.flapping warning (show_nat n <> " status changes in the last 1h0m0s") ∷ []
    else []

-- Evaluate
unfoldable pub evaluate : HealthInput → List Finding
unfolding evaluate_flapping
evaluate i =
    evaluate_status i.tunnel.status
    ++ ((if i.tunnel.status == Status.inactive then [] else evaluate_connectivity i)
        ++ (evaluate_flapping i.recent_changes
            ++ (evaluate_ingress i.ingress
                ++ (evaluate_access_coverage i
                    ++ (evaluate_access_bypass i
                        ++ (evaluate_service_tokens i.now i.service_tokens
                            ++ evaluate_alert_coverage i.alert_coverage i.tunnel.id))))))
