-- ===== src/Prober/Targets.antt =====
-- Which hostnames are probed, and with which credential.
use cftm.Base.{
  String, Bool, false, not, ◌&&◌, ◌==◌, ◌≡◌, refl, sym, ◌∙◌, List, Bool-cases, inl, inr, filter_by,
  exists_by, exists_by-map, exists_by-filter_and, exists_by-distinct, exists_by_congr, eq_iff,
  arith,
}
use cftm.Model.{IngressRule}
use cftm.Prober.{targets, target_of, is_probeable, is_http_service}
use cftm.Prober.Hostname.{matches_hostname, labels, all_labels, is_label}

matches_hostname-empty : matches_hostname "" ≡ false
unfolding matches_hostname labels all_labels is_label
matches_hostname-empty = refl

probeable-named :
    (host : String) (r : IngressRule)
    → (is_probeable r && (not (r.hostname == "") && r.hostname == host))
      ≡ (is_http_service r.service && (matches_hostname r.hostname && r.hostname == host))
unfolding is_probeable
probeable-named host r = elim (Bool-cases (r.hostname == "")) [
  | inl e ↦ rw (e, rw (sym ((eq_iff r.hostname "").0 e)) at matches_hostname-empty) (ground arith)
  | inr e ↦ rw e (ground arith)
]

-- A round probes a hostname exactly when an ingress rule with an HTTP service has that hostname and
-- the pattern of hostnames accepts it.
pub targets_iff :
    (rules : List IngressRule) (public_hostnames : String → Bool) (host : String)
    → exists_by (λ t. t.hostname == host) (targets rules public_hostnames)
      ≡ exists_by
          (λ r. is_http_service r.service && (matches_hostname r.hostname && r.hostname == host))
          rules
unfolding targets
targets_iff rules public_hostnames host =
    exists_by-map (λ t. t.hostname == host) (target_of public_hostnames) _
    ∙ exists_by-distinct (λ h. h == host) _
    ∙ exists_by-map _ (λ r. r.hostname) (filter_by is_probeable rules)
    ∙ exists_by-filter_and is_probeable _ rules
    ∙ exists_by_congr _ _ rules (probeable-named host)
