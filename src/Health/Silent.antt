-- ===== src/Health/Silent.antt =====
-- Which findings a check of internal/collector/health.go cannot raise, for any test on findings
-- that rejects the shapes that the check produces.
use cftm.Base.{
  ℕ, String, Bool, true, false, not, ◌||◌, ◌&&◌, ◌≡◌, refl, ◌∙◌, Option, none, some, List, [], ◌∷◌,
  ◌++◌, ltb, nat_eq, length, if◌then◌else◌, leb, ◌-◌, Bool-cases, inl, inr, exists_by, filter_map,
  exists_by-append, exists_by-filter_map_none, exists_by-flat_map_none, ◌==◌,
}
use cftm.Base.Text.{contains, to_lower}
use mathlib.Core.Option
use mathlib.Core.Path.{subst}
use cftm.Model.{IngressRule, Connector, ServiceToken, AccessApp}
use cftm.Model.Clock.{Time, is_zero}
use cftm.Model.Status
use cftm.Severity.{info, warning, critical}
use cftm.Finding.{Finding}
use cftm.Finding.Code
use cftm.Health.{
  HealthInput, AlertCoverage, plain, is_published, evaluate_status, low_connections, single_colo,
  version_drift, config_drift, connected, evaluate_connectivity, evaluate_rule, evaluate_ingress,
  coverage_gap, evaluate_access_coverage, bypassed_domain, bypassed_app, evaluate_access_bypass,
  token_finding, evaluate_service_tokens, evaluate_alert_coverage, evaluate_flapping, evaluate,
  covers_tunnel, bypass_message, is_protected, distinct_colos, ingress_config_version, served,
}

abbrev pub at_host : String → String → String → String → Finding
at_host code severity message hostname = record {
  code = code;
  severity = severity;
  message = message;
  hostname = hostname;
}

module _ (p : Finding → Bool) where
  -- a test finds something in the result of Evaluate where it finds something in one check
  pub exists_by-evaluate :
      (i : HealthInput)
      → exists_by p (evaluate i) ≡ (
          exists_by p (evaluate_status i.tunnel.status)
          || (exists_by p
                (if i.tunnel.status == Status.inactive then [] else evaluate_connectivity i)
              || (exists_by p (evaluate_flapping i.recent_changes)
                  || (exists_by p (evaluate_ingress i.ingress)
                      || (exists_by p (evaluate_access_coverage i)
                          || (exists_by p (evaluate_access_bypass i)
                              || (exists_by p (evaluate_service_tokens i.now i.service_tokens)
                                  || exists_by p
                                      (evaluate_alert_coverage i.alert_coverage i.tunnel.id))))))))
  unfolding evaluate
  exists_by-evaluate i = simp (exists_by-append p)

  silent_if :
      (b : Bool) (xs ys : List Finding)
      → exists_by p xs ≡ false
      → exists_by p ys ≡ false
      → exists_by p (if b then xs else ys) ≡ false
  silent_if true xs ys h k = h
  silent_if false xs ys h k = k

  silent_nil : exists_by p [] ≡ false
  unfolding exists_by
  silent_nil = refl

  -- the test rejects what a step of a loop appends, if it appends something
  abbrev Rejects : Option Finding → Type 0
  Rejects none = Unit
  Rejects (some f) = p f ≡ false

  Rejects-if :
      (b : Bool) (x y : Option Finding) → Rejects x → Rejects y → Rejects (if b then x else y)
  Rejects-if true x y h k = h
  Rejects-if false x y h k = k

  silent_filter_map {ℓ} :
      {A : Type ℓ} (f : A → Option Finding) (xs : List A)
      → ((a : A) → Rejects (f a))
      → exists_by p (filter_map f xs) ≡ false
  silent_filter_map f xs h = exists_by-filter_map_none p f xs (λ a b e. subst Rejects e (h a))

  silent_one : (f : Finding) → p f ≡ false → exists_by p (f ∷ []) ≡ false
  unfolding exists_by
  silent_one f h = rw h

  silent_append :
      (xs ys : List Finding)
      → exists_by p xs ≡ false
      → exists_by p ys ≡ false
      → exists_by p (xs ++ ys) ≡ false
  silent_append xs ys h k = exists_by-append p xs ys ∙ rw (h, k)

  pub flapping_silent :
      (n : ℕ)
      → ((m : String) → p (plain Code.flapping warning m) ≡ false)
      → exists_by p (evaluate_flapping n) ≡ false
  unfolding evaluate_flapping
  flapping_silent n h = silent_if (ltb 4 n) _ [] (silent_one _ (h _)) silent_nil

  pub alert_silent :
      (a : AlertCoverage) (id : String)
      → ((m : String) → p (plain Code.no_cloudflare_alert info m) ≡ false)
      → exists_by p (evaluate_alert_coverage a id) ≡ false
  unfolding evaluate_alert_coverage
  alert_silent a id h =
      silent_if (not a.readable || covers_tunnel a id) [] _ silent_nil (silent_one _ (h _))

  pub status_silent :
      (status : String)
      → ((m : String) → p (plain Code.tunnel_down critical m) ≡ false)
      → ((m : String) → p (plain Code.tunnel_degraded warning m) ≡ false)
      → ((m : String) → p (plain Code.tunnel_inactive info m) ≡ false)
      → exists_by p (evaluate_status status) ≡ false
  unfolding evaluate_status
  status_silent status h k l = silent_if (status == Status.down) _ _ (silent_one _ (h _)) (
      silent_if (status == Status.degraded) _ _ (silent_one _ (k _))
        (silent_if (status == Status.inactive) _ _ (silent_one _ (l _)) silent_nil))

  rule_silent :
      ((m host : String) → p (at_host Code.no_tls_verify info m host) ≡ false)
      → ((m host : String) → p (at_host Code.localhost_origin warning m host) ≡ false)
      → (rule : IngressRule) → exists_by p (evaluate_rule rule) ≡ false
  unfolding evaluate_rule
  rule_silent h k rule =
      silent_if (is_published rule) _ []
        (silent_append _ _
          (silent_if (contains rule.origin_request _) _ [] (silent_one _ (h _ _)) silent_nil)
          (silent_if (contains rule.service _) _ [] (silent_one _ (k _ _)) silent_nil))
        silent_nil

  pub ingress_silent :
      ((m host : String) → p (at_host Code.no_tls_verify info m host) ≡ false)
      → ((m host : String) → p (at_host Code.localhost_origin warning m host) ≡ false)
      → (rules : List IngressRule) → exists_by p (evaluate_ingress rules) ≡ false
  unfolding evaluate_ingress
  ingress_silent h k rules = exists_by-flat_map_none p evaluate_rule rules (rule_silent h k)

  pub coverage_silent :
      (i : HealthInput)
      → ((m host : String) → p (at_host Code.access_unprotected warning m host) ≡ false)
      → exists_by p (evaluate_access_coverage i) ≡ false
  unfolding evaluate_access_coverage
  coverage_silent i h =
      silent_if i.access_audit_available _ []
        (silent_filter_map (coverage_gap i.access_apps i.expected_public) i.ingress gap) silent_nil
    where
      gap : (r : IngressRule) → Rejects (coverage_gap i.access_apps i.expected_public r)
      gap r =
          unfold coverage_gap in
          (Rejects-if (not (is_published r)) none _ tt
            (Rejects-if (is_protected i.access_apps _ || i.expected_public _) none _ tt (h _ _)))

  pub bypass_silent :
      (i : HealthInput)
      → ((m host : String) → p (at_host Code.access_bypass warning m host) ≡ false)
      → exists_by p (evaluate_access_bypass i) ≡ false
  unfolding evaluate_access_bypass
  bypass_silent i h =
      silent_if i.access_audit_available _ []
        (exists_by-flat_map_none p (bypassed_app i.ingress) i.access_apps app_silent) silent_nil
    where
      of_served :
          (app : AccessApp) (o : Option String)
          → Rejects (
              Option.map
                (λ host. at_host Code.access_bypass warning (bypass_message app host) host)
                o)
      of_served app none = tt
      of_served app (some host) = h _ host

      app_silent : (app : AccessApp) → exists_by p (bypassed_app i.ingress app) ≡ false
      app_silent app =
          unfold bypassed_app bypassed_domain in
          (silent_if app.has_bypass _ []
            (silent_filter_map (bypassed_domain i.ingress app) app.domains
              (λ d. of_served app (served i.ingress (to_lower d))))
            silent_nil)

  pub tokens_silent :
      (now : Time) (tokens : List ServiceToken)
      → ((m : String) → p (plain Code.token_expiring critical m) ≡ false)
      → ((m : String) → p (plain Code.token_expiring warning m) ≡ false)
      → exists_by p (evaluate_service_tokens now tokens) ≡ false
  unfolding evaluate_service_tokens
  tokens_silent now tokens h k = silent_filter_map (token_finding now) tokens one
    where
      one : (t : ServiceToken) → Rejects (token_finding now t)
      one t =
          unfold token_finding in
          (Rejects-if (is_zero t.expires_at) none _ tt (
            Rejects-if (leb t.expires_at now) _ _ (h _)
              (Rejects-if (leb (t.expires_at - now) _) _ none (k _) tt)))

  low_silent :
      (n : ℕ)
      → ((m : String) → p (plain Code.low_connections warning m) ≡ false)
      → exists_by p (low_connections n) ≡ false
  unfolding low_connections
  low_silent n h = silent_if (ltb n 4) _ [] (silent_one _ (h _)) silent_nil

  single_silent :
      (cs : List String)
      → ((m : String) → p (plain Code.single_colo warning m) ≡ false)
      → exists_by p (single_colo cs) ≡ false
  unfolding single_colo
  single_silent [] h = silent_nil
  single_silent (c ∷ []) h = silent_one _ (h _)
  single_silent (c ∷ d ∷ cs) h = silent_nil

  -- evaluateConnectivity with a registered connector raises nothing but warnings of four codes
  connected_silent :
      (i : HealthInput)
      → ((m : String) → p (plain Code.low_connections warning m) ≡ false)
      → ((m : String) → p (plain Code.single_colo warning m) ≡ false)
      → ((m : String) → p (plain Code.version_drift warning m) ≡ false)
      → ((m : String) → p (plain Code.config_drift warning m) ≡ false)
      → exists_by p (connected i) ≡ false
  unfolding connected
  connected_silent i low single version config =
      silent_append _ _
        (silent_append _ _
          (silent_append _ _ (low_silent (length i.connections) low)
            (single_silent (distinct_colos i.connections) single))
          (silent_if (i.latest_release == "") [] _ silent_nil
            (silent_filter_map (version_drift i.latest_release) i.connectors older)))
        (silent_if (ltb 0 (ingress_config_version i.ingress)) _ []
          (silent_filter_map (config_drift (ingress_config_version i.ingress)) i.connectors behind)
          silent_nil)
    where
      older : (c : Connector) → Rejects (version_drift i.latest_release c)
      older c =
          unfold version_drift in
          (Rejects-if (not (c.version == "") && not (c.version == i.latest_release)) _ none
            (version _) tt)

      behind : (c : Connector) → Rejects (config_drift (ingress_config_version i.ingress) c)
      behind c =
          unfold config_drift in
          (Rejects-if
            (ltb 0 c.config_version
              && not (nat_eq c.config_version (ingress_config_version i.ingress)))
            _ none (config _) tt)

  if_id : (b : Bool) → (if b then true else false) ≡ b
  if_id true = refl
  if_id false = refl

  -- evaluateConnectivity finds a missing connector, and nothing else but warnings of four codes
  pub exists_by-evaluate_connectivity :
      (i : HealthInput)
      → ((m : String) → p (plain Code.low_connections warning m) ≡ false)
      → ((m : String) → p (plain Code.single_colo warning m) ≡ false)
      → ((m : String) → p (plain Code.version_drift warning m) ≡ false)
      → ((m : String) → p (plain Code.config_drift warning m) ≡ false)
      → exists_by p (evaluate_connectivity i) ≡ (
          nat_eq (length i.connectors) 0
          && p (plain Code.no_connectors critical "No cloudflared connector is registered"))
  exists_by-evaluate_connectivity i low single version config =
      elim (Bool-cases (nat_eq (length i.connectors) 0)) [
        | inl e ↦ unfold evaluate_connectivity exists_by in (rw e (if_id (p _)))
        | inr e ↦
            unfold evaluate_connectivity in (rw e (connected_silent i low single version config))
      ]

  pub reach_silent :
      (i : HealthInput)
      → ((m : String) → p (plain Code.no_connectors critical m) ≡ false)
      → ((m : String) → p (plain Code.low_connections warning m) ≡ false)
      → ((m : String) → p (plain Code.single_colo warning m) ≡ false)
      → ((m : String) → p (plain Code.version_drift warning m) ≡ false)
      → ((m : String) → p (plain Code.config_drift warning m) ≡ false)
      → (b : Bool) → exists_by p (if b then [] else evaluate_connectivity i) ≡ false
  reach_silent i absent low single version config true = silent_nil
  reach_silent i absent low single version config false =
      exists_by-evaluate_connectivity i low single version config
      ∙ rw (absent _) (and-false (nat_eq (length i.connectors) 0))
    where
      and-false : (b : Bool) → (b && false) ≡ false
      and-false true = refl
      and-false false = refl

  pub exists_by_gated :
      (b : Bool) (xs : List Finding) → exists_by p (if b then xs else []) ≡ (b && exists_by p xs)
  unfolding exists_by
  exists_by_gated true xs = refl
  exists_by_gated false xs = refl
