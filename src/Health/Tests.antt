-- ===== src/Health/Tests.antt =====
-- One tunnel with a public hostname, a bypassed one and an expired token.
use cftm.Base.{String, ◌≡◌, ◌↔◌, refl, true, false, List, [], ◌∷◌, exists_by, filter_by}
use cftm.Base.Text.{to_lower}
use cftm.Model.{Tunnel, IngressRule, AccessApp, ServiceToken}
use cftm.Model.Status
use cftm.Severity.{critical, rank}
use cftm.Finding.{Finding, worst_severity}
use cftm.Finding.Code
use cftm.Health.{HealthInput, plain, evaluate, is_published, is_protected}
use cftm.Health.Coverage.{is_for, unprotected_iff_gap, bypass_iff_served}
use cftm.Health.Critical.{is_broken, worst_critical_iff_broken}

abbrev sample_tunnel : Tunnel
sample_tunnel = record {
  id = "t1";
  name = "home";
  tun_type = "cfd_tunnel";
  config_src = "cloudflare";
  remote_config = true;
  status = Status.healthy;
  created_at = 0;
  conns_active_at = 0;
  conns_inactive_at = 0;
  first_seen = 0;
  last_seen = 0;
}

abbrev rule : String → String → IngressRule
rule hostname service = record {
  tunnel_id = "t1";
  index = 0;
  hostname = hostname;
  path = "";
  service = service;
  origin_request = "";
  config_version = 1;
  seen_at = 0;
}

abbrev guarded_app : AccessApp
guarded_app = record {
  id = "a1";
  name = "wiki";
  domains = "wiki.example.com" ∷ [];
  raw_domains = "wiki.example.com/docs" ∷ [];
  app_type = "self_hosted";
  has_bypass = true;
  has_token = false;
  bypass_policies = "open" ∷ [];
  policy_count = 1;
  last_seen = 0;
}

abbrev old_token : ServiceToken
old_token = record { id = "s1"; name = "probe"; client_id = "c"; expires_at = 5; last_seen = 0 }

abbrev sample : HealthInput
sample = record {
  tunnel = sample_tunnel;
  connectors = [];
  connections = [];
  ingress =
      rule "Blog.example.com" "http://10.0.0.1"
      ∷ rule "Wiki.example.com" "http://10.0.0.2"
      ∷ rule "" "http_status:404"
      ∷ [];
  access_apps = guarded_app ∷ [];
  service_tokens = old_token ∷ [];
  access_audit_available = true;
  expected_public = λ host. false;
  alert_coverage = record { readable = false; covered = [] };
  latest_release = "";
  recent_changes = 0;
  now = 9;
}

unprotected_iff_gap_example :
    exists_by (is_for Code.access_unprotected "Blog.example.com") (evaluate sample) ≡ true
unfolding exists_by is_published is_protected to_lower
unprotected_iff_gap_example = unprotected_iff_gap sample "Blog.example.com"

bypass_iff_served_example :
    exists_by (is_for Code.access_bypass "Wiki.example.com") (evaluate sample) ≡ true
unfolding exists_by filter_by to_lower
bypass_iff_served_example = bypass_iff_served sample "Wiki.example.com"

worst_critical_iff_broken_example :
    (worst_severity (evaluate sample) ≡ critical) ↔ (is_broken sample ≡ true)
worst_critical_iff_broken_example = worst_critical_iff_broken sample

abbrev two : List Finding
two = plain Code.flapping "warning" "" ∷ plain Code.tunnel_down critical "" ∷ []

worst-two : worst_severity two ≡ critical
unfolding worst_severity rank
worst-two = refl
