-- ===== src/Health/Coverage.antt =====
-- When a hostname is reported as publicly reachable.
use cftm.Base.{
  String, Bool, true, false, not, ◌||◌, ◌&&◌, ◌≡◌, refl, ◌∙◌, ap, Option, none, some, List, [], ◌∷◌,
  sym, arith, ap_if, if◌then◌else◌, exists_by, filter_by, filter_map, exists_by-filter_map,
  exists_by_congr, exists_by-flat_map, exists_by-and, holds, ◌==◌, eq_iff,
}
use mathlib.Core.Option
use cftm.Severity.{warning}
use cftm.Base.Text.{to_lower, has_prefix}
use cftm.Model.{IngressRule, AccessApp}
use cftm.Model.Status
use cftm.Finding.{Finding}
use cftm.Finding.Code
use cftm.Health.{
  HealthInput, is_published, is_http_service, is_protected, coverage_gap, evaluate_access_coverage,
  served, bypass_message, bypassed_domain, bypassed_app, evaluate_access_bypass, evaluate,
}
use cftm.Health.Silent.{
  at_host, exists_by-evaluate, reach_silent, exists_by_gated, coverage_silent, status_silent,
  flapping_silent, ingress_silent, bypass_silent, tokens_silent, alert_silent,
}

or-false : (b : Bool) → (b || false) ≡ b
or-false true = refl
or-false false = refl

-- a finding with this code for this hostname
abbrev pub is_for : String → String → Finding → Bool
is_for code host f = f.code == code && f.hostname == host

-- a published rule with this hostname
abbrev pub serves : String → IngressRule → Bool
serves host r = is_published r && r.hostname == host

module _ (apps : List AccessApp) (expected : String → Bool) (host : String) where
  abbrev excused : Bool
  excused = is_protected apps (to_lower host) || expected (to_lower host)

  gap_of_rule :
      (r : IngressRule)
      → holds (is_for Code.access_unprotected host) (coverage_gap apps expected r)
        ≡ (serves host r && not excused)
  unfolding coverage_gap
  gap_of_rule r = ground (arith, eq_iff r.hostname host)

  gaps :
      (rules : List IngressRule)
      → exists_by
          (is_for Code.access_unprotected host)
          (filter_map (coverage_gap apps expected) rules)
        ≡ (exists_by (serves host) rules && not excused)
  gaps rules =
      exists_by-filter_map (is_for Code.access_unprotected host) (coverage_gap apps expected) rules
      ∙ (exists_by_congr _ _ rules gap_of_rule ∙ exists_by-and (serves host) (not excused) rules)

-- Evaluate reports a hostname as publicly reachable exactly when the Access audit has run, some
-- published ingress rule has that hostname, and neither an Access application's domain nor the
-- list of expected hostnames names it in lower case.
pub unprotected_iff_gap :
    (i : HealthInput) (host : String)
    → exists_by (is_for Code.access_unprotected host) (evaluate i) ≡ (
        i.access_audit_available
        && (exists_by (serves host) i.ingress
            && not
                (is_protected i.access_apps (to_lower host) || i.expected_public (to_lower host))))
unprotected_iff_gap i host =
    exists_by-evaluate p i
    ∙ rw
        (
          status_silent p i.tunnel.status (λ m. refl) (λ m. refl) (λ m. refl),
          reach_silent p i (λ m. refl) (λ m. refl) (λ m. refl) (λ m. refl) (λ m. refl)
              (i.tunnel.status == Status.inactive),
          flapping_silent p i.recent_changes (λ m. refl),
          ingress_silent p (λ m h. refl) (λ m h. refl) i.ingress,
          bypass_silent p i (λ m h. refl),
          tokens_silent p i.now i.service_tokens (λ m. refl) (λ m. refl),
          alert_silent p i.alert_coverage i.tunnel.id (λ m. refl),
        )
        covered
  where
    p : Finding → Bool
    p = is_for Code.access_unprotected host

    covered : (exists_by p (evaluate_access_coverage i) || false) ≡ (
        i.access_audit_available
        && (exists_by (serves host) i.ingress
            && not
                (is_protected i.access_apps (to_lower host) || i.expected_public (to_lower host))))
    covered =
        or-false (exists_by p (evaluate_access_coverage i))
        ∙ (unfold evaluate_access_coverage in
            (exists_by_gated p i.access_audit_available _
              ∙ ap (λ b. i.access_audit_available && b)
                  (gaps i.access_apps i.expected_public host i.ingress)))

-- a rule with a hostname and an HTTP service, whose hostname is the domain but for case
abbrev pub routes_domain : String → IngressRule → Bool
routes_domain d r =
    not (r.hostname == "")
    && (has_prefix r.service "http://" || has_prefix r.service "https://")
    && to_lower r.hostname == to_lower d

abbrev pub first_hostname : List IngressRule → Option String
first_hostname [] = none
first_hostname (r ∷ rules) = some r.hostname

-- the first rule that routes the domain is spelled like the hostname
abbrev pub names_host : List IngressRule → String → String → Bool
names_host rules host d =
    holds (λ h. h == host) (first_hostname (filter_by (routes_domain d) rules))

served-first :
    (rules : List IngressRule) (d : String)
    → served rules (to_lower d) ≡ first_hostname (filter_by (routes_domain d) rules)
unfolding served is_published is_http_service filter_by
served-first [] d = refl
served-first (r ∷ rules) d =
    ap (λ b. if b then some r.hostname else served rules (to_lower d))
      (guards (r.hostname == "") (has_prefix r.service "http://" || has_prefix r.service "https://")
        (to_lower r.hostname == to_lower d))
    ∙ ap (λ o. if routes_domain d r then some r.hostname else o) (served-first rules d)
    ∙ sym (
        ap_if first_hostname (routes_domain d r) (r ∷ filter_by (routes_domain d) rules)
          (filter_by (routes_domain d) rules))
  where
    guards : (a b c : Bool) → (not (a || not b) && c) ≡ ((not a && b) && c)
    guards true b c = refl
    guards false true c = refl
    guards false false c = refl

module _ (rules : List IngressRule) (host : String) where
  bypass_of_domain :
      (app : AccessApp) (d : String)
      → holds (is_for Code.access_bypass host) (bypassed_domain rules app d)
        ≡ names_host rules host d
  unfolding bypassed_domain
  bypass_of_domain app d =
      of_served (served rules (to_lower d)) ∙ ap (holds (λ h. h == host)) (served-first rules d)
    where
      of_served :
          (o : Option String)
          → holds
              (is_for Code.access_bypass host)
              (Option.map (λ h. at_host Code.access_bypass warning (bypass_message app h) h) o)
            ≡ holds (λ h. h == host) o
      of_served none = refl
      of_served (some h) = refl

  bypass_of_app :
      (app : AccessApp)
      → exists_by (is_for Code.access_bypass host) (bypassed_app rules app)
        ≡ (app.has_bypass && exists_by (names_host rules host) app.domains)
  unfolding bypassed_app
  bypass_of_app app =
      exists_by_gated (is_for Code.access_bypass host) app.has_bypass _
      ∙ ap (λ b. app.has_bypass && b)
          (exists_by-filter_map (is_for Code.access_bypass host) (bypassed_domain rules app)
              app.domains
            ∙ exists_by_congr _ _ app.domains (bypass_of_domain app))

-- Evaluate reports a hostname as bypassed exactly when the Access audit has run and some Access
-- application with a bypass policy has a domain that is, but for case, the hostname of an ingress
-- rule with an HTTP service, where the first such rule spells it like the reported hostname.
pub bypass_iff_served :
    (i : HealthInput) (host : String)
    → exists_by (is_for Code.access_bypass host) (evaluate i) ≡ (
        i.access_audit_available
        && exists_by
            (λ app. app.has_bypass && exists_by (names_host i.ingress host) app.domains)
            i.access_apps)
bypass_iff_served i host =
    exists_by-evaluate p i
    ∙ rw
        (
          status_silent p i.tunnel.status (λ m. refl) (λ m. refl) (λ m. refl),
          reach_silent p i (λ m. refl) (λ m. refl) (λ m. refl) (λ m. refl) (λ m. refl)
              (i.tunnel.status == Status.inactive),
          flapping_silent p i.recent_changes (λ m. refl),
          ingress_silent p (λ m h. refl) (λ m h. refl) i.ingress,
          coverage_silent p i (λ m h. refl),
          tokens_silent p i.now i.service_tokens (λ m. refl) (λ m. refl),
          alert_silent p i.alert_coverage i.tunnel.id (λ m. refl),
        )
        bypassed
  where
    p : Finding → Bool
    p = is_for Code.access_bypass host

    bypassed : (exists_by p (evaluate_access_bypass i) || false) ≡ (
        i.access_audit_available
        && exists_by
            (λ app. app.has_bypass && exists_by (names_host i.ingress host) app.domains)
            i.access_apps)
    bypassed =
        or-false (exists_by p (evaluate_access_bypass i))
        ∙ (unfold evaluate_access_bypass in
            (exists_by_gated p i.access_audit_available _
              ∙ ap (λ b. i.access_audit_available && b)
                  (exists_by-flat_map p (bypassed_app i.ingress) i.access_apps
                    ∙ exists_by_congr _ _ i.access_apps (bypass_of_app i.ingress host))))
