-- ===== src/Server/Summary.antt =====
-- probeSummary, probeClassRank, worseProbeClass and visibleFindings of
-- internal/server/viewbuilder.go.
pub mod Counts
mod Tests
use cftm.Base.{
  ℕ, suc, String, Bool, true, false, not, ◌||◌, ◌&&◌, ◌==◌, ltb, nat_eq, length, Option, none, some,
  List, [], ◌∷◌, exists_by, filter_by, if◌then◌else◌,
}
use cftm.Base.Text.{to_lower}
use cftm.Model.{IngressRule, ProbeResult}
use cftm.Finding.{Finding}
use cftm.Health.{is_http_service}
use cftm.Probe.Class
use cftm.Store.Ignores.{FindingRef, is_ignored}

-- Probes of internal/web/viewmodels.go
pub record Probes : Type 0 where
  pub total : ℕ
  pub checked : ℕ
  pub ok : ℕ
  pub worst : String

-- probeClassRank
unfoldable pub probe_class_rank : String → ℕ
probe_class_rank class =
    if class == Class.tunnel_down
    then 6
    else if class == Class.origin_error
    then 5
    else if class == Class.timeout || class == Class.dns_error || class == Class.tls_error
    then 4
    else if class == Class.http_error
    then 3
    else if class == Class.access_denied
    then 2
    else if class == Class.access_challenge || class == Class.edge_cached
    then 1
    else 0

-- worseProbeClass
unfoldable pub worse_probe_class : String → String → String
worse_probe_class a b = if ltb (probe_class_rank a) (probe_class_rank b) then b else a

-- what one hostname's newest probe adds
unfoldable pub count_probe : Option ProbeResult → Probes → Probes
count_probe none p = record p { total = suc p.total }
count_probe (some r) p =
    if r.class == Class.ok
    then record p { total = suc p.total; checked = suc p.checked; ok = suc p.ok }
    else record p {
      total = suc p.total;
      checked = suc p.checked;
      worst = worse_probe_class p.worst r.class;
    }

abbrev pub is_skipped : List String → IngressRule → Bool
is_skipped seen r =
    r.hostname == "" || not (is_http_service r.service) || exists_by (λ h. h == r.hostname) seen

-- the loop of probeSummary, with the hostnames seen so far
unfoldable pub summarize :
    (String → Option ProbeResult) → List String → Probes → List IngressRule → Probes
summarize probes seen p [] = p
summarize probes seen p (r ∷ rules) =
    let skip = is_skipped seen r in
    summarize probes (if skip then seen else r.hostname ∷ seen)
      (if skip then p else count_probe (probes r.hostname) p) rules

-- probeSummary
unfoldable pub probe_summary : (String → Option ProbeResult) → List IngressRule → Probes
probe_summary probes rules =
    summarize probes [] (record { total = 0; checked = 0; ok = 0; worst = "" }) rules

abbrev pub ref_of : String → Finding → FindingRef
ref_of tunnel_id f = record { code = f.code; tunnel_id = tunnel_id; hostname = to_lower f.hostname }

-- visibleFindings
unfoldable pub visible_findings : List Finding → String → List FindingRef → List Finding
visible_findings findings tunnel_id ignored =
    if nat_eq (length ignored) 0
    then findings
    else filter_by (λ f. not (is_ignored ignored (ref_of tunnel_id f))) findings
