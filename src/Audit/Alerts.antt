-- ===== src/Audit/Alerts.antt =====
-- Which tunnels Cloudflare itself would alert on: internal/cloudflare/alerting.go, and alertedOn and
-- auditAlerts of internal/collector/audit.go.
use cftm.Base.{
  ℕ, String, Bool, true, false, not, ◌&&◌, ◌==◌, ◌+◌, nat_eq, ltb, length, Option, none, some, List,
  [], map, exists_by, filter_by, if◌then◌else◌,
}
use cftm.Base.Text.{equal_fold}
use cftm.Model.{Tunnel}
use cftm.Health.{AlertCoverage}

abbrev pub alert_tunnel_health : String
alert_tunnel_health = "tunnel_health_event"

pub record Filter : Type 0 where
  pub tunnel_id : List String
  pub tunnel_name : List String
  pub new_status : List String

-- how many destinations there are of each kind
pub record Mechanisms : Type 0 where
  pub email : ℕ
  pub pager_duty : ℕ
  pub webhooks : ℕ

pub record Policy : Type 0 where
  pub id : String
  pub name : String
  pub description : String
  pub alert_type : String
  pub enabled : Bool
  pub filters : Filter
  pub mechanisms : Mechanisms

-- DeliversTo
unfoldable pub delivers_to : Policy → ℕ
delivers_to p = p.mechanisms.email + p.mechanisms.pager_duty + p.mechanisms.webhooks

-- Covers
unfoldable pub covers : Policy → String → String → Bool
covers p tunnel_id tunnel_name =
    if not p.enabled
    then false
    else if nat_eq (length p.filters.tunnel_id) 0 && nat_eq (length p.filters.tunnel_name) 0
    then true
    else if exists_by (λ id. equal_fold id tunnel_id) p.filters.tunnel_id
    then true
    else exists_by (λ name. equal_fold name tunnel_name) p.filters.tunnel_name

-- alertedOn
unfoldable pub alerted_on : List Policy → String → String → Bool
alerted_on policies tunnel_id tunnel_name =
    exists_by
      (λ p.
        if not (p.alert_type == alert_tunnel_health)
        then false
        else covers p tunnel_id tunnel_name && ltb 0 (delivers_to p))
      policies

-- the coverage that auditAlerts caches; `none` where the policies could not be listed
unfoldable pub audit_alerts : Option (List Policy) → List Tunnel → AlertCoverage
audit_alerts none tunnels = record { readable = false; covered = [] }
audit_alerts (some policies) tunnels = record {
  readable = true;
  covered = map (λ t. t.id) (filter_by (λ t. alerted_on policies t.id t.name) tunnels);
}
