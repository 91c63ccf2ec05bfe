-- ===== src/Server/Page.antt =====
-- The snapshot that the pages of internal/server/viewbuilder.go are built from, and what is derived
-- from it for one tunnel. The maps by tunnel are the lists of all rows, narrowed to a tunnel.
pub mod Unprotected
mod Tests
use cftm.Base.{
  ℕ, String, Bool, true, false, not, ◌||◌, ◌&&◌, ◌==◌, nat_eq, length, Option, none, some, List, [],
  ◌∷◌, map, exists_by, filter_by, distinct, order_by, text_le, if◌then◌else◌,
}
use cftm.Base.Text.{to_lower, has_prefix, contains}
use cftm.Model.{Tunnel, Connector, Connection, IngressRule, AccessApp, ServiceToken, ProbeResult}
use cftm.Model.Clock.{Time, Duration, ago, is_zero, day}
use cftm.Severity.{info}
use cftm.Finding.{Finding}
use cftm.Finding.Code
use cftm.Health.{AlertCoverage, HealthInput, evaluate, flap_window, is_http_service}
use cftm.Store.Tables.{Tables}
use cftm.Store.History.{status_history, status_at}
use cftm.Store.Listing.{all_tunnels, all_connectors, all_connections, all_ingress}
use cftm.Store.Inventory.{access_apps, service_tokens}
use cftm.Store.Samples.{latest_probe_result}
use cftm.Store.Ignores.{FindingRef, Ignored, ignored_findings, ignored_finding_set}
use cftm.Audit.Access.{State}
use cftm.Server.Summary.{visible_findings}

pub record Snapshot : Type 0 where
  pub now : Time
  pub tunnels : List Tunnel
  pub connectors : List Connector
  pub connections : List Connection
  pub ingress : List IngressRule
  pub apps : List AccessApp
  pub tokens : List ServiceToken
  pub probes : String → Option ProbeResult
  pub latest_release : String
  pub audit_available : Bool
  pub alert_coverage : AlertCoverage
  pub ignored : List FindingRef
  pub expected_public : String → Bool

-- effectivePublic
unfoldable pub effective_public : (String → Bool) → List FindingRef → String → Bool
effective_public configured ignored host =
    configured host
    || exists_by
        (λ ref.
          ref.code == Code.access_unprotected && not (ref.hostname == "") && ref.hostname == host)
        ignored

-- loadSnapshot, where the reads get through; the release is what LatestRelease answers
unfoldable pub load_snapshot :
    Tables → State → List Ignored → String → (String → Bool) → Time → Snapshot
load_snapshot db audit muted release configured now =
    let ignored = ignored_finding_set muted in
    record {
      now = now;
      tunnels = all_tunnels db;
      connectors = all_connectors db;
      connections = all_connections db;
      ingress = all_ingress db;
      apps = access_apps audit.inventory;
      tokens = service_tokens audit.inventory;
      probes = latest_probe_result db;
      latest_release = release;
      audit_available = not (is_zero audit.audited_at);
      alert_coverage = audit.alerts;
      ignored = ignored;
      expected_public = effective_public configured ignored;
    }

-- the maps of the snapshot, at one tunnel
abbrev pub connectors_at : Snapshot → String → List Connector
connectors_at snap id = filter_by (λ c. c.tunnel_id == id) snap.connectors

abbrev pub connections_at : Snapshot → String → List Connection
connections_at snap id = filter_by (λ c. c.tunnel_id == id) snap.connections

abbrev pub ingress_at : Snapshot → String → List IngressRule
ingress_at snap id = filter_by (λ r. r.tunnel_id == id) snap.ingress

abbrev pub health_input : Tables → Snapshot → Tunnel → HealthInput
health_input db snap t = record {
  tunnel = t;
  connectors = connectors_at snap t.id;
  connections = connections_at snap t.id;
  ingress = ingress_at snap t.id;
  access_apps = snap.apps;
  service_tokens = snap.tokens;
  access_audit_available = snap.audit_available;
  expected_public = snap.expected_public;
  alert_coverage = snap.alert_coverage;
  latest_release = snap.latest_release;
  recent_changes = length (status_history db.history t.id (ago snap.now flap_window));
  now = snap.now;
}

-- findingsFor
unfoldable pub findings_for : Tables → Snapshot → Tunnel → List Finding
findings_for db snap t = evaluate (health_input db snap t)

-- the findings on the card of a tunnel
unfoldable pub card_findings : Tables → Snapshot → Tunnel → List Finding
card_findings db snap t = visible_findings (findings_for db snap t) t.id snap.ignored

-- mutedFor: the findings muted for one tunnel, with when that was
unfoldable pub muted_for : List Ignored → String → List Ignored
muted_for muted id = filter_by (λ f. not (not (f.ref.tunnel_id == id))) (ignored_findings muted)

-- colosOf
unfoldable pub colos_of : List Connection → List String
colos_of conns = order_by text_le (distinct [] (map (λ c. c.colo_name) conns))

-- versionsOf
unfoldable pub versions_of : List Connector → List String
versions_of connectors = order_by text_le (distinct [] (map (λ c. c.version) connectors))

-- countHostnames
unfoldable pub count_hostnames : List IngressRule → ℕ
count_hostnames rules = length (filter_by (λ r. not (r.hostname == "")) rules)

-- serviceKind
unfoldable pub service_kind : String → String
service_kind service =
    if has_prefix service "http://" || has_prefix service "https://"
    then "http"
    else if has_prefix service "ssh://"
    then "ssh"
    else if has_prefix service "rdp://"
    then "rdp"
    else if has_prefix service "tcp://"
    then "tcp"
    else if has_prefix service "http_status:"
    then "catch-all"
    else "other"

abbrev pub is_covered : Snapshot → String → Bool
is_covered snap host = exists_by (λ app. exists_by (λ d. to_lower d == host) app.domains) snap.apps

abbrev pub is_routed : IngressRule → Bool
is_routed r = not (r.hostname == "" || not (is_http_service r.service))

abbrev pub by_hostname : List IngressRule → List IngressRule
by_hostname rules = order_by (λ a b. text_le a.hostname b.hostname) rules

-- unprotected: the gaps, and the rules that are public on purpose
unfoldable pub unprotected : Snapshot → List IngressRule × List IngressRule
unprotected snap =
    let open_rules =
      filter_by (λ r. is_routed r && not (is_covered snap (to_lower r.hostname))) snap.ingress in
    if not snap.audit_available then ([], []) else (
      by_hostname (filter_by (λ r. not (snap.expected_public (to_lower r.hostname))) open_rules),
      by_hostname (filter_by (λ r. snap.expected_public (to_lower r.hostname)) open_rules),
    )
