-- ===== src/Server/AuditPage/Tests.antt =====
-- Runs of the audit page.
use cftm.Base.{true, false, not, ◌&&◌, ◌==◌, ◌≡◌, ◌*◌, none, [], ◌∷◌}
use cftm.Base.Text.{to_lower}
use cftm.Model.{IngressRule, AccessApp, ServiceToken}
use cftm.Model.Clock.{day}
use cftm.Health.{is_protected, is_http_service, token_finding}
use cftm.Server.Page.{Snapshot}
use cftm.Server.AuditPage.{web_ingress, token_severity}
use cftm.Server.AuditPage.Agree.{severity_of, pages_agree}

abbrev www : IngressRule
www = record {
  tunnel_id = "t1";
  index = 0;
  hostname = "Wiki.example.com";
  path = "";
  service = "http://127.0.0.1:80";
  origin_request = "";
  config_version = 1;
  seen_at = 0;
}

abbrev wiki : AccessApp
wiki = record {
  id = "a";
  name = "Wiki";
  domains = "wiki.example.com" ∷ [];
  raw_domains = [];
  app_type = "self_hosted";
  has_bypass = false;
  has_token = true;
  bypass_policies = [];
  policy_count = 1;
  last_seen = 0;
}

abbrev token : ServiceToken
token = record { id = "s"; name = "probe"; client_id = "c"; expires_at = 20 * day; last_seen = 0 }

abbrev snapshot : Snapshot
snapshot = record {
  now = 10 * day;
  tunnels = [];
  connectors = [];
  connections = [];
  ingress = www ∷ [];
  apps = wiki ∷ [];
  tokens = token ∷ [];
  probes = λ h. none;
  latest_release = "";
  audit_available = true;
  alert_coverage = record { readable = false; covered = [] };
  ignored = [];
  expected_public = λ h. false;
}

pages_agree_example :
    ((web_ingress snapshot (λ id. "home") www).access.protected ≡ (
      (not (www.hostname == "") && is_http_service www.service)
      && is_protected snapshot.apps (to_lower www.hostname)))
    × (token_severity (10 * day) token ≡ severity_of (token_finding (10 * day) token))
pages_agree_example = pages_agree snapshot (λ id. "home") www (10 * day) token
