-- ===== src/Collector/Probes/Token.antt =====
-- Which hostnames are sent the Access service token.
use cftm.Base.{
  String, Bool, true, false, not, ◌&&◌, ◌||◌, ◌==◌, ◌≡◌, refl, ◌∙◌, ap, sym, List, [], map, Memᴰ,
  exists_by, exists_by_intro, of_mem-map, of_mem-distinct, of_mem-filter_by, arith, filter_by,
  if_split,
}
use Prim.Native.Char.{Char}
use Prim.Native.String.compare
use text.Mathlib.Text.{is_eq}
use text.Mathlib.TextPositions.{eq_refl}
use cftm.Base.Text.{to_lower, lower_char}
use cftm.Model.{IngressRule}
use cftm.Model.Clock.{is_zero}
use cftm.Health.{is_protected}
use cftm.Store.Inventory.{access_apps}
use cftm.Audit.Access.{State}
use cftm.Prober.{Config, headers, has_service_token, Target, target_of, targets, is_probeable}
use cftm.Collector.Probes.{is_named, public_hostnames}

cons-empty : (c : Char) (s : String) → (String.◌∷◌ c s == "") ≡ false
cons-empty c s = λ i. is_eq (compare.cons-nil c s i)

to_lower-empty : (s : String) → (s == "") ≡ false → (to_lower s == "") ≡ false
unfolding to_lower
to_lower-empty String.[] h = h
to_lower-empty (String.◌∷◌ c s) h = cons-empty (lower_char c) (to_lower s)

-- the target of a round has the hostname of a rule, which is not empty, and its credential is
-- decided by that hostname
of_mem-targets :
    (rules : List IngressRule) (p : String → Bool) {t : Target}
    → Memᴰ t (targets rules p)
    → (r : IngressRule) × Memᴰ r rules
      × (r.hostname ≡ t.hostname)
      × ((t.hostname == "") ≡ false)
      × (t.use_service_token ≡ not (p (to_lower t.hostname)))
unfolding targets
of_mem-targets rules p m =
    let (h, n, e) = of_mem-map (target_of p) _ m in
    let (k, nonempty) =
      of_mem-distinct [] (map (λ r. r.hostname) (filter_by is_probeable rules)) n in
    let (r, l, q) = of_mem-map (λ r. r.hostname) (filter_by is_probeable rules) k in
    let (i, probeable) = of_mem-filter_by is_probeable rules l in rw (← e) (r, i, q, nonempty, refl)

is_named-rule :
    (rules : List IngressRule) (host : String) (r : IngressRule)
    → Memᴰ r rules
    → r.hostname ≡ host
    → (host == "") ≡ false
    → is_named rules (to_lower host) ≡ true
is_named-rule rules host r m e h =
    exists_by_intro _ rules m (rw e (rw (to_lower-empty host h) (eq_refl (to_lower host))))

token_wanted :
    (st : State) (rules : List IngressRule) (t : Target)
    → Memᴰ t (targets rules (public_hostnames st rules))
    → t.use_service_token
      ≡ (is_zero st.audited_at || is_protected (access_apps st.inventory) (to_lower t.hostname))
unfolding public_hostnames
token_wanted st rules t m =
    let (r, n, e, h, token) = of_mem-targets rules (public_hostnames st rules) m in
    token ∙ rw (is_named-rule rules t.hostname r n e h) (ground arith)

-- a request that carries the secret of the service token
abbrev pub carries_secret : List (String × String) → Bool
carries_secret hs = exists_by (λ h. h.0 == "CF-Access-Client-Secret") hs

carries_secret-headers :
    (cfg : Config) (version : String) (t : Target)
    → carries_secret (headers cfg version t) ≡ (t.use_service_token && has_service_token cfg)
unfolding headers exists_by
carries_secret-headers cfg version t =
    if_split (λ hs. carries_secret hs ≡ (t.use_service_token && has_service_token cfg))
      (t.use_service_token && has_service_token cfg) _ _ (λ e. sym e) (λ e. sym e)

-- The request for a target of a round carries the secret of the Access service token exactly when
-- the prober has a service token and either no Access audit has run yet or an Access application of
-- the stored inventory protects the target's hostname.
pub targets-token :
    (cfg : Config) (version : String) (st : State) (rules : List IngressRule) (t : Target)
    → Memᴰ t (targets rules (public_hostnames st rules))
    → carries_secret (headers cfg version t) ≡ (
        (is_zero st.audited_at || is_protected (access_apps st.inventory) (to_lower t.hostname))
        && has_service_token cfg)
targets-token cfg version st rules t m =
    carries_secret-headers cfg version t
    ∙ ap (λ b. b && has_service_token cfg) (token_wanted st rules t m)
