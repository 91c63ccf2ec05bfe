-- ===== src/Collector/Probes/Tests.antt =====
-- Runs of probing rounds.
use cftm.Base.{
  ℕ, String, true, false, ◌&&◌, ◌||◌, ◌==◌, ◌≡◌, refl, ◌*◌, ◌++◌, List, [], ◌∷◌, Memᴰ, exists_by,
  filter_by, distinct, order_by, place, none, some, if◌then◌else◌,
}
use mathlib.Core.List.Memᴰ.{head, tail}
use cftm.Base.Text.{all_chars, to_lower, lower_char}
use cftm.Model.{IngressRule, ProbeResult, AccessApp}
use cftm.Model.Clock.{second, is_zero}
use cftm.Health.{is_protected}
use cftm.Store.Tables.{empty}
use cftm.Store.Inventory.{access_apps}
use cftm.Store.Log.{add_probe_results}
use cftm.Store.Samples.{latest_probe_result}
use cftm.Audit.Access.{State}
use cftm.Prober.{Config, Target, targets, is_probeable, is_http_service, headers, has_service_token}
use cftm.Prober.Hostname.{matches_hostname, labels, to_first, all_labels, is_label}
use cftm.Probe.Class
use cftm.Collector.Probes.{public_hostnames, probe_event, event_of}
use cftm.Collector.Probes.Token.{targets-token, carries_secret}
use cftm.Collector.Probes.Transition.{probe_event-next}

abbrev rule : ℕ → String → IngressRule
rule i hostname = record {
  tunnel_id = "t1";
  index = i;
  hostname = hostname;
  path = "";
  service = "http://127.0.0.1:80";
  origin_request = "";
  config_version = 1;
  seen_at = 0;
}

abbrev rules : List IngressRule
rules = rule 0 "Wiki.example.com" ∷ rule 1 "*.example.com" ∷ rule 2 "www.example.com" ∷ []

abbrev wiki : AccessApp
wiki = record {
  id = "a";
  name = "Wiki";
  domains = "wiki.example.com" ∷ [];
  raw_domains = [];
  app_type = "self_hosted";
  has_bypass = false;
  has_token = true;
  bypass_policies = [];
  policy_count = 1;
  last_seen = 0;
}

abbrev audited : State
audited = record {
  inventory = record { apps = wiki ∷ []; tokens = [] };
  audited_at = 100 * second;
  alerts = record { readable = false; covered = [] };
  capabilities = [];
}

abbrev config : Config
config = record {
  timeout = 10 * second;
  concurrency = 4;
  client_id = "id";
  client_secret = "secret";
}

abbrev www : Target
www = record { hostname = "www.example.com"; use_service_token = false }

www_target : Memᴰ www (targets rules (public_hostnames audited rules))
unfolding targets distinct filter_by is_probeable is_http_service matches_hostname labels to_first
    all_labels is_label all_chars exists_by public_hostnames to_lower is_protected access_apps
    order_by place lower_char
www_target = tail (head refl)

targets-token_example : carries_secret (headers config "1.0" www) ≡ (
    (is_zero audited.audited_at
      || is_protected (access_apps audited.inventory) (to_lower www.hostname))
    && has_service_token config)
targets-token_example = targets-token config "1.0" audited rules www www_target

abbrev result : String → ℕ → String → ProbeResult
result hostname at class = record {
  hostname = hostname;
  checked_at = at * second;
  status_code = 200;
  class = class;
  latency_ms = 12;
  error = "";
}

abbrev up : ProbeResult
up = result "www.example.com" 10 Class.ok

abbrev broken : ProbeResult
broken = result "www.example.com" 20 Class.tunnel_down

probe_event-next_example :
    probe_event rules
      (latest_probe_result
        (add_probe_results empty ((result "wiki.example.com" 10 Class.ok ∷ []) ++ (up ∷ [])))
        broken.hostname)
      broken
    ≡ (if up.class == broken.class then none else some (event_of rules up.class broken))
unfolding exists_by
probe_event-next_example =
    probe_event-next empty (result "wiki.example.com" 10 Class.ok ∷ []) [] up broken rules refl refl
      refl refl
