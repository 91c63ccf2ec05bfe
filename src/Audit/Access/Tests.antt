-- ===== src/Audit/Access/Tests.antt =====
-- Runs of an audit of the Access applications and of the alerts.
use cftm.Base.{
  String, not, true, false, ◌==◌, ◌⊎◌, ◌<◌, ◌*◌, if◌then◌else◌, length, List, [], ◌∷◌, ◌≡◌,
  exists_by,
}
use cftm.Model.{Tunnel}
use cftm.Model.Clock.{second}
use cftm.Health.{is_protected}
use cftm.Store.Inventory.{access_apps}
use cftm.Client.Access.{App, Policy}
use cftm.Collector.Capabilities.{Call, failed, answered, api}
use cftm.Audit.Alerts
use cftm.Audit.Alerts.{alert_tunnel_health}
use cftm.Audit.Access.{World, State, audit_access, refresh_alerts}
use cftm.Audit.Access.Alerted.{is_flagged, is_reached, refresh_alerts_iff}
use cftm.Audit.Access.Stored.{names, audit_access-protected}

abbrev shop : App
shop = record {
  id = "1";
  name = "Shop";
  domain = "https://Shop.Example.com/admin";
  app_type = "self_hosted";
  self_hosted_domains = "api.example.com" ∷ [];
}

abbrev wiki : App
wiki = record {
  id = "2";
  name = "Wiki";
  domain = "wiki.example.com";
  app_type = "self_hosted";
  self_hosted_domains = [];
}

abbrev policies : String → Call (List Policy)
policies id =
    if id == "2"
    then failed (api 500 "status 500")
    else answered (
        record { id = "p"; name = "open"; decision = "Bypass"; include = ("everyone" ∷ []) ∷ [] }
        ∷ [])

abbrev world : World
world = record {
  apps = answered (wiki ∷ shop ∷ []);
  policies = policies;
  tokens = failed (api 403 "status 403");
  alert_policies = answered [];
  saves_apps = true;
  saves_tokens = true;
  saves_timestamp = true;
  saves_alerts = true;
  reads_tunnels = true;
}

abbrev before_audit : State
before_audit = record {
  inventory = record { apps = []; tokens = [] };
  audited_at = 0;
  alerts = record { readable = false; covered = [] };
  capabilities = [];
}

audit_access-protected_example :
    ((audit_access world before_audit [] (100 * second)).state.inventory ≡ before_audit.inventory)
      × (0 < length (audit_access world before_audit [] (100 * second)).errors)
    ⊎ (apps : List App) × (world.apps ≡ answered apps)
      × ((host : String)
          → is_protected
              (access_apps (audit_access world before_audit [] (100 * second)).state.inventory)
              host
            ≡ exists_by (names host) apps)
audit_access-protected_example = audit_access-protected world before_audit [] (100 * second)

abbrev alert_policy : List String → List String → Alerts.Policy
alert_policy ids names = record {
  id = "p";
  name = "health";
  description = "";
  alert_type = alert_tunnel_health;
  enabled = true;
  filters = record { tunnel_id = ids; tunnel_name = names; new_status = [] };
  mechanisms = record { email = 1; pager_duty = 0; webhooks = 0 };
}

abbrev silent : Alerts.Policy
silent = record (alert_policy [] []) {
  mechanisms = record { email = 0; pager_duty = 0; webhooks = 0 };
}

abbrev tunnel : String → Tunnel
tunnel id = record {
  id = id;
  name = id;
  tun_type = "cfd_tunnel";
  config_src = "cloudflare";
  remote_config = true;
  status = "healthy";
  created_at = 0;
  conns_active_at = 0;
  conns_inactive_at = 0;
  first_seen = 0;
  last_seen = 0;
}

abbrev alert_policies : List Alerts.Policy
alert_policies = alert_policy ("t1" ∷ []) [] ∷ silent ∷ []

abbrev tunnels : List Tunnel
tunnels = tunnel "t1" ∷ tunnel "t2" ∷ []

abbrev alerting : World
alerting = record world { alert_policies = answered alert_policies }

refresh_alerts_iff_example :
    (is_flagged (refresh_alerts alerting before_audit tunnels (100 * second)).state.alerts "t2"
      ≡ not (is_reached alert_policies tunnels "t2"))
    × (length (refresh_alerts alerting before_audit tunnels (100 * second)).errors ≡ 0)
refresh_alerts_iff_example = refresh_alerts_iff alerting before_audit tunnels (100 * second) "t2"
