-- ===== src/Store/Ingress/Changed.antt =====
-- When a rule set counts as changed.
use cftm.Base.{
  ℕ, String, Bool, true, false, not, ◌||◌, ◌==◌, eq_iff, nat_eq, ◌≡◌, ◌↔◌, refl, ap, sym, ◌∙◌, suc,
  nat_eq_iff, List, [], ◌∷◌, map, length, if◌then◌else◌, Bool-cases, inl, inr, arith,
}
use text.Mathlib.TextPositions.{eq_refl}
use cftm.Model.{IngressRule}
use cftm.Store.Ingress.{differs, any_differs, ingress_changed}

-- what a rule says, without its place and the times
pub record Content : Type 0 where
  pub hostname : String
  pub path : String
  pub service : String
  pub origin_request : String
  pub config_version : ℕ

abbrev pub content : IngressRule → Content
content r = record {
  hostname = r.hostname;
  path = r.path;
  service = r.service;
  origin_request = r.origin_request;
  config_version = r.config_version;
}

cons_inj : {a b : Content} {xs ys : List Content} → (a ∷ xs) ≡ (b ∷ ys) → (a ≡ b) × (xs ≡ ys)
cons_inj h = (ground arith, ground arith)

all_true :
    (a b c d e : Bool)
    → (not a || not b || not c || not d || not e) ≡ false
    → (a ≡ true) × (b ≡ true) × (c ≡ true) × (d ≡ true) × (e ≡ true)
all_true true true true true true h = (refl, refl, refl, refl, refl)
all_true true true true true false h = absurd (ground arith)
all_true true true true false e h = absurd (ground arith)
all_true true true false d e h = absurd (ground arith)
all_true true false c d e h = absurd (ground arith)
all_true false b c d e h = absurd (ground arith)

alike : (p c : IngressRule) → differs p c ≡ false → content p ≡ content c
alike p c h =
    let (eh, ep, es, eo, ev) =
      all_true (p.hostname == c.hostname) (p.path == c.path) (p.service == c.service)
        (p.origin_request == c.origin_request) (nat_eq p.config_version c.config_version) h in
    let host = (eq_iff p.hostname c.hostname).0 eh in
    let path = (eq_iff p.path c.path).0 ep in
    let service = (eq_iff p.service c.service).0 es in
    let origin = (eq_iff p.origin_request c.origin_request).0 eo in
    let version = (nat_eq_iff p.config_version c.config_version).0 ev in cc

content_differs : Content → Content → Bool
content_differs p c =
    not (p.hostname == c.hostname)
    || not (p.path == c.path)
    || not (p.service == c.service)
    || not (p.origin_request == c.origin_request)
    || not (nat_eq p.config_version c.config_version)

same_content : (p : Content) → content_differs p p ≡ false
unfolding content_differs
same_content p =
    rw
      (
        eq_refl p.hostname,
        eq_refl p.path,
        eq_refl p.service,
        eq_refl p.origin_request,
        (nat_eq_iff p.config_version p.config_version).1 refl,
      )
      refl

differs-alike : (p c : IngressRule) → content p ≡ content c → differs p c ≡ false
unfolding content_differs
differs-alike p c e = ap (λ t. content_differs t (content c)) e ∙ same_content (content c)

rules_alike :
    (ps cs : List IngressRule)
    → length ps ≡ length cs
    → any_differs ps cs ≡ false
    → map content ps ≡ map content cs
unfolding any_differs
rules_alike [] [] n h = refl
rules_alike [] (c ∷ cs) n h = absurd (omega arith)
rules_alike (p ∷ ps) [] n h = absurd (omega arith)
rules_alike (p ∷ ps) (c ∷ cs) n h = elim (Bool-cases (differs p c)) [
  | inl e ↦ absurd (ground arith)
  | inr e ↦
      let rest = rules_alike ps cs (omega arith) (rw (e, if◌then◌else◌) at h) in
      let first = alike p c e in cc
]

alike_rules :
    (ps cs : List IngressRule) → map content ps ≡ map content cs → any_differs ps cs ≡ false
unfolding any_differs
alike_rules [] cs h = refl
alike_rules (p ∷ ps) [] h = refl
alike_rules (p ∷ ps) (c ∷ cs) h =
    rw (differs-alike p c (cons_inj h).0) (alike_rules ps cs (cons_inj h).1)

length-content : (rs : List IngressRule) → length (map content rs) ≡ length rs
length-content [] = refl
length-content (r ∷ rs) = ap suc (length-content rs)

-- A rule set counts as unchanged exactly when the stored rules and the new ones say the same, rule
-- by rule: hostname, path, service, origin settings and configuration version.
pub ingress_changed_iff :
    (previous current : List IngressRule)
    → (ingress_changed previous current ≡ false) ↔ (map content previous ≡ map content current)
unfolding ingress_changed
ingress_changed_iff previous current = (forth, back)
  where
    lengths : Bool
    lengths = nat_eq (length previous) (length current)

    forth : ingress_changed previous current ≡ false → map content previous ≡ map content current
    forth h = elim (Bool-cases lengths) [
      | inl e ↦
          rules_alike previous current ((nat_eq_iff (length previous) (length current)).0 e)
            (rw (e, if◌then◌else◌) at h)
      | inr e ↦ absurd (ground arith)
    ]

    back : map content previous ≡ map content current → ingress_changed previous current ≡ false
    back h =
        rw
          ((nat_eq_iff (length previous) (length current)).1
            (sym (length-content previous) ∙ (ap length h ∙ length-content current)))
          (alike_rules previous current h)
