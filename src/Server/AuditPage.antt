-- ===== src/Server/AuditPage.antt =====
-- AuditPage and toWebIngress of internal/server/viewbuilder.go: what the audit and ingress pages say
-- of a hostname, an application and a service token.
pub mod Agree
mod Tests
use cftm.Base.{
  ℕ, ◌-◌, ◌/◌, ◌+◌, String, Bool, true, false, not, ◌||◌, ◌&&◌, ◌==◌, nat_eq, leb, length, Option,
  none, some, List, [], ◌∷◌, map, exists_by, filter_by, sum_by, if◌then◌else◌,
}
use cftm.Base.Text.{to_lower, contains}
use cftm.Model.{IngressRule, AccessApp, ServiceToken, ProbeResult, Tunnel}
use cftm.Model.Clock.{Time, is_zero, day}
use cftm.Health.{token_expiry_warning, is_http_service}
use cftm.Severity.{warning, critical}
use cftm.Store.Tunnels.{or_else}
use cftm.Server.Page.{Snapshot, service_kind}

-- AccessState of internal/web/viewmodels.go
pub record AccessState : Type 0 where
  pub known : Bool
  pub protected : Bool
  pub app_name : String
  pub has_bypass : Bool
  pub has_token : Bool

-- Ingress of internal/web/viewmodels.go; the probe is the stored one
pub record WebIngress : Type 0 where
  pub tunnel_id : String
  pub tunnel_name : String
  pub hostname : String
  pub path : String
  pub service : String
  pub kind : String
  pub probeable : Bool
  pub no_tls_verify : Bool
  pub access : AccessState
  pub probe : Option ProbeResult

abbrev pub protects : String → AccessApp → Bool
protects host app = exists_by (λ d. to_lower d == host) app.domains

-- a lookup in appByDomain: the last application that names the domain
unfoldable pub app_by_domain : List AccessApp → String → Option AccessApp
app_by_domain [] host = none
app_by_domain (app ∷ apps) host =
    or_else (app_by_domain apps host) (if protects host app then some app else none)

abbrev pub unknown_access : AccessState
unknown_access = record {
  known = false;
  protected = false;
  app_name = "";
  has_bypass = false;
  has_token = false;
}

unfoldable pub access_of : Bool → Option AccessApp → AccessState
access_of available none = record unknown_access { known = available }
access_of available (some app) = record {
  known = available;
  protected = true;
  app_name = app.name;
  has_bypass = app.has_bypass;
  has_token = app.has_token;
}

-- one round of the loop of toWebIngress
unfoldable pub web_ingress : Snapshot → (String → String) → IngressRule → WebIngress
unfolding access_of
web_ingress snap names r =
    let probeable = not (r.hostname == "") && is_http_service r.service in
    record {
      tunnel_id = r.tunnel_id;
      tunnel_name = names r.tunnel_id;
      hostname = r.hostname;
      path = r.path;
      service = r.service;
      kind = service_kind r.service;
      probeable = probeable;
      no_tls_verify = contains r.origin_request "\"noTLSVerify\":true";
      access =
          if probeable
          then access_of snap.audit_available (app_by_domain snap.apps (to_lower r.hostname))
          else unknown_access;
      probe = if probeable then snap.probes r.hostname else none;
    }

-- toWebIngress
unfoldable pub to_web_ingress : Snapshot → List IngressRule → (String → String) → List WebIngress
to_web_ingress snap rules names = map (web_ingress snap names) rules

-- tunnelNames: the last tunnel with the id
unfoldable pub tunnel_names : List Tunnel → String → String
tunnel_names [] id = ""
tunnel_names (t ∷ tunnels) id =
    let rest = tunnel_names tunnels id in
    if exists_by (λ u. u.id == id) tunnels then rest else if t.id == id then t.name else rest

-- whether some hostname of the ingress is a domain of the application
unfoldable pub is_matched : Snapshot → AccessApp → Bool
is_matched snap app =
    exists_by
      (λ d.
        exists_by (λ r. not (r.hostname == "") && to_lower r.hostname == to_lower d) snap.ingress)
      app.domains

-- the severity that the page gives a token, if any
unfoldable pub token_severity : Time → ServiceToken → String
token_severity now token =
    if is_zero token.expires_at
    then ""
    else if leb token.expires_at now
    then critical
    else if leb (token.expires_at - now) token_expiry_warning
    then warning
    else ""

-- DaysLeft of a token that has not expired
unfoldable pub days_left : Time → ServiceToken → ℕ
days_left now token = if is_zero token.expires_at then 0 else (token.expires_at - now) / day

-- InUse: the token that probing is configured with
unfoldable pub in_use : String → ServiceToken → Bool
in_use client_id token = not (client_id == "") && token.client_id == client_id

-- ProbeTokenKnown
unfoldable pub probe_token_known : String → Snapshot → Bool
probe_token_known client_id snap = exists_by (in_use client_id) snap.tokens
