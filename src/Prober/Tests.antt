-- ===== src/Prober/Tests.antt =====
-- Runs of the prober.
use cftm.Base.{ℕ, String, false, ◌&&◌, ◌==◌, ◌≡◌, refl, List, [], ◌∷◌, exists_by}
use cftm.Model.{IngressRule}
use cftm.Prober.{replace_from, redact_secrets, targets, is_http_service}
use cftm.Prober.Hostname.{matches_hostname}
use cftm.Prober.Targets.{targets_iff}

redacted :
    redact_secrets "dial s3 with s3s3: refused" "s3"
    ≡ "dial [redacted] with [redacted][redacted]: refused"
unfolding redact_secrets replace_from
redacted = refl

abbrev rule : ℕ → String → IngressRule
rule i hostname = record {
  tunnel_id = "t1";
  index = i;
  hostname = hostname;
  path = "";
  service = "http://127.0.0.1:80";
  origin_request = "";
  config_version = 1;
  seen_at = 0;
}

abbrev rules : List IngressRule
rules = rule 0 "www.example.com" ∷ rule 1 "*.example.com" ∷ rule 2 "www.example.com" ∷ []

targets_iff_example :
    exists_by (λ t. t.hostname == "www.example.com") (targets rules (λ h. false))
    ≡ exists_by
        (λ r.
          is_http_service r.service
          && (matches_hostname r.hostname && r.hostname == "www.example.com"))
        rules
targets_iff_example = targets_iff rules (λ h. false) "www.example.com"
