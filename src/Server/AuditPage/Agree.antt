-- ===== src/Server/AuditPage/Agree.antt =====
-- The audit and ingress pages agree with the health findings.
use cftm.Base.{
  ◌-◌, leb, String, Bool, true, false, not, ◌&&◌, ◌==◌, ◌≡◌, refl, ◌∙◌, ap, Option, none, some,
  List, [], ◌∷◌, exists_by, if_split, if◌then◌else◌,
}
use cftm.Base.Text.{to_lower}
use cftm.Model.{IngressRule, AccessApp, ServiceToken}
use cftm.Model.Clock.{Time, is_zero}
use cftm.Finding.{Finding}
use cftm.Health.{token_expiry_warning, is_protected, is_http_service, token_finding}
use cftm.Store.Tunnels.{or_else}
use cftm.Server.Page.{Snapshot}
use cftm.Server.AuditPage.{
  AccessState, app_by_domain, protects, access_of, web_ingress, token_severity,
}

abbrev pub severity_of : Option Finding → String
severity_of none = ""
severity_of (some f) = f.severity

protected-or_else :
    (available : Bool) (o : Option AccessApp) (b : Bool) (app : AccessApp)
    → (access_of available (or_else o (if b then some app else none))).protected
      ≡ (if b then true else (access_of available o).protected)
unfolding access_of
protected-or_else available none true app = refl
protected-or_else available none false app = refl
protected-or_else available (some a) true app = refl
protected-or_else available (some a) false app = refl

protected_iff :
    (available : Bool) (apps : List AccessApp) (host : String)
    → (access_of available (app_by_domain apps host)).protected ≡ is_protected apps host
unfolding access_of app_by_domain is_protected exists_by
protected_iff available [] host = refl
protected_iff available (app ∷ apps) host =
    protected-or_else available (app_by_domain apps host) (protects host app) app
    ∙ ap (λ b. if protects host app then true else b) (protected_iff available apps host)

branches :
    (absent expired soon : Bool) (f g : Finding)
    → (if absent then "" else if expired then f.severity else if soon then g.severity else "")
      ≡ severity_of
          (if absent then none else if expired then some f else if soon then some g else none)
branches true expired soon f g = refl
branches false true soon f g = refl
branches false false true f g = refl
branches false false false f g = refl

-- The pages show the hostname of a rule as protected exactly when it is not empty, the rule has an
-- HTTP service and the health findings count the hostname as protected, and they give a service
-- token the severity of its health finding, or none if it has none.
pub pages_agree :
    (snap : Snapshot) (names : String → String) (r : IngressRule) (now : Time)
    (token : ServiceToken)
    → ((web_ingress snap names r).access.protected ≡ (
        (not (r.hostname == "") && is_http_service r.service)
        && is_protected snap.apps (to_lower r.hostname)))
      × (token_severity now token ≡ severity_of (token_finding now token))
unfolding web_ingress token_severity token_finding
pages_agree snap names r now token = (
  if_split {A = AccessState}
      (λ a. a.protected ≡ (
        (not (r.hostname == "") && is_http_service r.service)
        && is_protected snap.apps (to_lower r.hostname)))
      (not (r.hostname == "") && is_http_service r.service) _ _
      (λ e. protected_iff snap.audit_available snap.apps (to_lower r.hostname) ∙ rw e refl)
      (λ e. rw e refl),
  branches (is_zero token.expires_at) (leb token.expires_at now)
      (leb (token.expires_at - now) token_expiry_warning) _ _,
)
