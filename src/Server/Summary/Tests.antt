-- ===== src/Server/Summary/Tests.antt =====
-- Two hostnames, one of them with two rules.
use cftm.Base.{
  ℕ, String, ◌≡◌, ◌≤◌, ◌↔◌, ◌==◌, refl, true, false, Option, none, some, List, [], ◌∷◌, Memᴰ,
  length, if◌then◌else◌,
}
use cftm.Base
use cftm.Model.{IngressRule, ProbeResult}
use cftm.Health.{is_http_service}
use cftm.Probe.Class
use cftm.Server.Summary.{
  Probes, probe_summary, summarize, count_probe, worse_probe_class, probe_class_rank,
}

abbrev rule : ℕ → String → IngressRule
rule index hostname = record {
  tunnel_id = "t1";
  index = index;
  hostname = hostname;
  path = "";
  service = "http://10.0.0.1";
  origin_request = "";
  config_version = 2;
  seen_at = 0;
}

abbrev rules : List IngressRule
rules = rule 0 "a.example.com" ∷ rule 1 "a.example.com" ∷ rule 2 "b.example.com" ∷ []

abbrev failing : ProbeResult
failing = record {
  hostname = "a.example.com";
  checked_at = 9;
  status_code = 502;
  class = Class.origin_error;
  latency_ms = 12;
  error = "";
}

abbrev probes : String → Option ProbeResult
probes hostname = if hostname == "a.example.com" then some failing else none

abbrev expected : Probes
expected = record { total = 2; checked = 1; ok = 0; worst = Class.origin_error }

summary_of_rules : probe_summary probes rules ≡ expected
unfolding probe_summary summarize count_probe worse_probe_class probe_class_rank is_http_service
    Base.exists_by
summary_of_rules = refl
