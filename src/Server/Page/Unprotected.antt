-- ===== src/Server/Page/Unprotected.antt =====
-- The findings of a tunnel and the list of unprotected hostnames say the same.
use cftm.Base.{
  String, Bool, true, false, not, ◌&&◌, ◌||◌, ◌==◌, ◌≡◌, refl, ◌∙◌, ap, sym, exists_by,
  exists_by-order_by, exists_by-filter_and, exists_by_congr, exists_by-and, eq_iff, arith,
  Bool-cases, inl, inr,
}
use cftm.Base.Text.{to_lower}
use cftm.Model.{Tunnel, IngressRule}
use cftm.Finding.Code
use cftm.Health.{is_published, is_protected}
use cftm.Health.Coverage.{is_for, serves, unprotected_iff_gap}
use cftm.Store.Tables.{Tables}
use cftm.Server.Page.{
  Snapshot, findings_for, health_input, is_covered, is_routed, unprotected, ingress_at,
}

-- a rule of the tunnel with the hostname
abbrev pub of_tunnel : String → String → IngressRule → Bool
of_tunnel id host r = r.tunnel_id == id && r.hostname == host

regroup :
    (published covered expected tunnel named covered' expected' : Bool)
    → (named ≡ true → (covered ≡ covered') × (expected ≡ expected'))
    → ((published && not covered) && (not expected && (tunnel && named)))
      ≡ ((tunnel && (published && named)) && not (covered' || expected'))
regroup p c e t false c' e' h = ground arith
regroup p c e t true c' e' h = rw ((h refl).0, (h refl).1) (ground arith)

module _ (snap : Snapshot) (id host : String) where
  listed_rule :
      (r : IngressRule)
      → ((is_routed r && not (is_covered snap (to_lower r.hostname)))
          && (not (snap.expected_public (to_lower r.hostname)) && of_tunnel id host r))
        ≡ ((r.tunnel_id == id && serves host r)
            && not (is_protected snap.apps (to_lower host) || snap.expected_public (to_lower host)))
  unfolding is_published is_protected
  listed_rule r = regroup (is_routed r) _ _ (r.tunnel_id == id) (r.hostname == host) _ _ (λ e.
      let same = (eq_iff r.hostname host).0 e in
      (
        ap (λ h. is_covered snap (to_lower h)) same,
        ap (λ h. snap.expected_public (to_lower h)) same,
      ))

  listed : exists_by (of_tunnel id host) (unprotected snap).0 ≡ (
      snap.audit_available
      && (exists_by (serves host) (ingress_at snap id)
          && not (is_protected snap.apps (to_lower host) || snap.expected_public (to_lower host))))
  unfolding unprotected exists_by
  listed = elim (Bool-cases snap.audit_available) [
    | inl e ↦ rw e (
        exists_by-order_by _ (of_tunnel id host) _
        ∙ exists_by-filter_and (λ r. not (snap.expected_public (to_lower r.hostname)))
            (of_tunnel id host) _
        ∙ exists_by-filter_and (λ r. is_routed r && not (is_covered snap (to_lower r.hostname))) _
            snap.ingress
        ∙ exists_by_congr _ _ snap.ingress listed_rule
        ∙ exists_by-and (λ r. r.tunnel_id == id && serves host r) _ snap.ingress
        ∙ ap
            (λ b.
              b
              && not
                  (is_protected snap.apps (to_lower host) || snap.expected_public (to_lower host)))
            (sym (exists_by-filter_and (λ r. r.tunnel_id == id) (serves host) snap.ingress)))
    | inr e ↦ rw e refl
  ]

-- The findings of a tunnel say that a hostname is publicly reachable exactly when the list of
-- unprotected hostnames of the audit page, which is computed on its own, has a rule of that tunnel
-- with that hostname.
pub gap_iff_listed :
    (db : Tables) (snap : Snapshot) (t : Tunnel) (host : String)
    → exists_by (is_for Code.access_unprotected host) (findings_for db snap t)
      ≡ exists_by (of_tunnel t.id host) (unprotected snap).0
unfolding findings_for
gap_iff_listed db snap t host =
    unprotected_iff_gap (health_input db snap t) host ∙ sym (listed snap t.id host)
