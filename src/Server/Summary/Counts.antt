-- ===== src/Server/Summary/Counts.antt =====
-- The counts of the probe summary, and which findings stay visible.
use cftm.Base.{
  suc, String, Bool, true, false, not, ◌≡◌, ◌≤◌, ◌↔◌, ◌+◌, refl, ap, nat_eq, length, Option, none,
  some, List, [], ◌∷◌, Memᴰ, mem-filter_by, of_mem-filter_by, exists_by, if◌then◌else◌, if_split,
  ◌==◌, arith,
}
use cftm.Model.{IngressRule, ProbeResult}
use cftm.Finding.{Finding}
use cftm.Probe.Class
use cftm.Store.Ignores.{FindingRef, is_ignored}
use cftm.Server.Summary.{
  Probes, count_probe, is_skipped, summarize, probe_summary, ref_of, visible_findings,
}

record IsCounted (p : Probes) : Type 0 where
  answered : p.ok ≤ p.checked
  probed : p.checked ≤ p.total

count_probe-IsCounted :
    (o : Option ProbeResult) (p : Probes) → IsCounted p → IsCounted (count_probe o p)
unfolding count_probe
count_probe-IsCounted none p h =
    let a = h.answered in let b = h.probed in record { answered = a; probed = omega arith }
count_probe-IsCounted (some r) p h =
    let a = h.answered in
    let b = h.probed in
    if_split IsCounted (r.class == Class.ok) _ _
      (λ e. record { answered = omega arith; probed = omega arith })
      (λ e. record { answered = omega arith; probed = omega arith })

count_probe-total : (o : Option ProbeResult) (p : Probes) → (count_probe o p).total ≡ suc p.total
unfolding count_probe
count_probe-total none p = refl
count_probe-total (some r) p =
    if_split {A = Probes} (λ q. q.total ≡ suc p.total) (r.class == Class.ok) _ _ (λ e. refl)
      (λ e. refl)

module _ (probes : String → Option ProbeResult) where
  step-IsCounted :
      (seen : List String) (p : Probes) (r : IngressRule)
      → IsCounted p
      → IsCounted (if is_skipped seen r then p else count_probe (probes r.hostname) p)
  step-IsCounted seen p r h =
      if_split IsCounted (is_skipped seen r) _ _ (λ e. h)
        (λ e. count_probe-IsCounted (probes r.hostname) p h)

  step-total :
      (seen : List String) (p : Probes) (r : IngressRule)
      → (if is_skipped seen r then p else count_probe (probes r.hostname) p).total ≤ suc p.total
  step-total seen p r =
      let counted = count_probe-total (probes r.hostname) p in
      if_split {A = Probes} (λ q. q.total ≤ suc p.total) (is_skipped seen r) _ _ (λ e. omega arith)
        (λ e. omega arith)

  summarize-IsCounted :
      (seen : List String) (p : Probes) (rules : List IngressRule)
      → IsCounted p
      → IsCounted (summarize probes seen p rules)
        × ((summarize probes seen p rules).total ≤ p.total + length rules)
  unfolding summarize
  summarize-IsCounted seen p [] h = (h, omega arith)
  summarize-IsCounted seen p (r ∷ rules) h =
      let rest =
        summarize-IsCounted (if is_skipped seen r then seen else r.hostname ∷ seen)
          (if is_skipped seen r then p else count_probe (probes r.hostname) p) rules
          (step-IsCounted seen p r h) in
      let one = step-total seen p r in let more = rest.1 in (rest.0, omega arith)

  -- A probe summary counts no hostname twice over: those that answered are among the checked, those
  -- among all, and there are at most as many as ingress rules.
  probe_summary-IsCounted :
      (rules : List IngressRule)
      → IsCounted (probe_summary probes rules) × ((probe_summary probes rules).total ≤ length rules)
  unfolding probe_summary
  probe_summary-IsCounted rules =
      let done =
        summarize-IsCounted [] (record { total = 0; checked = 0; ok = 0; worst = "" }) rules
          (record { answered = omega arith; probed = omega arith }) in
      let bound = done.1 in (done.0, omega arith)

-- A finding is visible exactly when it was derived and the operator has not muted its code for the
-- tunnel and the hostname in lower case.
visible_findings_iff :
    (findings : List Finding) (tunnel_id : String) (ignored : List FindingRef) (f : Finding)
    → Memᴰ f (visible_findings findings tunnel_id ignored)
      ↔ (Memᴰ f findings × (is_ignored ignored (ref_of tunnel_id f) ≡ false))
unfolding visible_findings exists_by
visible_findings_iff findings tunnel_id [] f = (λ m. (m, refl), λ h. h.0)
visible_findings_iff findings tunnel_id (i ∷ ignored) f = rw some_ignored (
  λ m.
      let (k, e) = of_mem-filter_by visible findings m in
      (k, not_true (is_ignored (i ∷ ignored) (ref_of tunnel_id f)) e),
  λ h. mem-filter_by visible findings h.0 (ap not h.1),
)
  where
    visible : Finding → Bool
    visible g = not (is_ignored (i ∷ ignored) (ref_of tunnel_id g))

    some_ignored : nat_eq (length (i ∷ ignored)) 0 ≡ false
    some_ignored = ground arith

    not_true : (b : Bool) → not b ≡ true → b ≡ false
    not_true true e = absurd (ground arith)
    not_true false e = refl
