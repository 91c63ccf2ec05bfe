-- ===== src/Health/Critical.antt =====
-- When the worst finding of a tunnel is critical.
use cftm.Base.{
  ◌≤◌, String, Bool, true, false, not, ◌||◌, ◌&&◌, ◌≡◌, ◌↔◌, refl, ◌∙◌, sym, ap, List, [], arith,
  if◌then◌else◌, inl, inr, exists_by, exists_by-filter_map, exists_by_congr, exists_by-true,
  exists_by_intro, holds, ◌==◌, eq_iff, leb, nat_eq, length,
}
use cftm.Model.{ServiceToken}
use cftm.Model.Clock.{Time, is_zero}
use cftm.Model.Status
use cftm.Severity.{critical, rank}
use cftm.Finding.{Finding, worst_severity}
use cftm.Finding.Worst.{worst_severity_greatest}
use cftm.Health.{
  HealthInput, token_finding, evaluate_service_tokens, evaluate_status, evaluate_connectivity,
  evaluate,
}
use cftm.Health.Silent.{
  exists_by-evaluate, exists_by-evaluate_connectivity, flapping_silent, ingress_silent,
  coverage_silent, bypass_silent, alert_silent,
}

abbrev pub is_critical : Finding → Bool
is_critical f = f.severity == critical

-- a token with an expiry that is not after now
abbrev pub has_expired : Time → ServiceToken → Bool
has_expired now t = not (is_zero t.expires_at) && leb t.expires_at now

-- what makes a tunnel critical, in terms of the input alone
pub is_broken : HealthInput → Bool
is_broken i =
    i.tunnel.status == Status.down
    || (not (i.tunnel.status == Status.inactive) && nat_eq (length i.connectors) 0
        || exists_by (has_expired i.now) i.service_tokens)

critical_token :
    (now : Time) (t : ServiceToken) → holds is_critical (token_finding now t) ≡ has_expired now t
unfolding token_finding
critical_token now t = ground arith

critical_status : (s : String) → exists_by is_critical (evaluate_status s) ≡ (s == Status.down)
unfolding evaluate_status exists_by
critical_status s = ground arith

critical_tokens :
    (now : Time) (tokens : List ServiceToken)
    → exists_by is_critical (evaluate_service_tokens now tokens)
      ≡ exists_by (has_expired now) tokens
unfolding evaluate_service_tokens
critical_tokens now tokens =
    exists_by-filter_map is_critical (token_finding now) tokens
    ∙ exists_by_congr _ _ tokens (critical_token now)

critical_reach :
    (i : HealthInput) (b : Bool)
    → exists_by is_critical (if b then [] else evaluate_connectivity i)
      ≡ (not b && nat_eq (length i.connectors) 0)
critical_reach i true = unfold exists_by in refl
critical_reach i false =
    exists_by-evaluate_connectivity is_critical i (λ m. refl) (λ m. refl) (λ m. refl) (λ m. refl)
    ∙ and-true (nat_eq (length i.connectors) 0)
  where
    and-true : (b : Bool) → (b && true) ≡ b
    and-true true = refl
    and-true false = refl

or-false : (b : Bool) → (b || false) ≡ b
or-false true = refl
or-false false = refl

critical_finding : (i : HealthInput) → exists_by is_critical (evaluate i) ≡ is_broken i
unfolding is_broken
critical_finding i =
    exists_by-evaluate is_critical i
    ∙ rw
        (
          critical_status i.tunnel.status,
          critical_reach i (i.tunnel.status == Status.inactive),
          flapping_silent is_critical i.recent_changes (λ m. refl),
          ingress_silent is_critical (λ m h. refl) (λ m h. refl) i.ingress,
          coverage_silent is_critical i (λ m h. refl),
          bypass_silent is_critical i (λ m h. refl),
          critical_tokens i.now i.service_tokens,
          alert_silent is_critical i.alert_coverage i.tunnel.id (λ m. refl),
        )
        (ap
          (λ b.
            i.tunnel.status == Status.down
            || (not (i.tunnel.status == Status.inactive) && nat_eq (length i.connectors) 0 || b))
          (or-false (exists_by (has_expired i.now) i.service_tokens)))

rank-eq : (s : String) → (s == critical) ≡ true → rank s ≡ 3
unfolding rank
rank-eq s h = rw h

rank-critical : (s : String) → 3 ≤ rank s → s ≡ critical
unfolding rank
rank-critical s h = ground (arith, eq_iff s critical)

-- The worst severity of a tunnel's findings is critical exactly when its status is down, or it is
-- not inactive and has no connector, or the expiry of some service token has passed.
pub worst_critical_iff_broken :
    (i : HealthInput) → (worst_severity (evaluate i) ≡ critical) ↔ (is_broken i ≡ true)
worst_critical_iff_broken i = (forth, back)
  where
    forth : worst_severity (evaluate i) ≡ critical → is_broken i ≡ true
    forth h = elim (worst_severity_greatest (evaluate i)).1 [
      | inl e ↦ cc (sym e ∙ h)
      | inr (f, m, e) ↦
          sym (critical_finding i)
          ∙ exists_by_intro is_critical (evaluate i) m ((eq_iff f.severity critical).1 (e ∙ h))
    ]

    back : is_broken i ≡ true → worst_severity (evaluate i) ≡ critical
    back h =
        let (f, m, e) = exists_by-true is_critical (evaluate i) (critical_finding i ∙ h) in
        rank-critical (worst_severity (evaluate i))
          (rw (rank-eq f.severity e) at ((worst_severity_greatest (evaluate i)).0 f m))
