-- ===== src/Audit/Access.antt =====
-- AuditAccess, auditAlerts, toStoreTokens, TunnelAlerts and AccessAuditAt of
-- internal/collector/audit.go, over what the API and the database answer. The values cached in the
-- table meta are kept decoded, and the clock is read once.
pub mod Stored
pub mod Alerted
mod Tests
use cftm.Base.{
  String, Bool, false, Option, none, some, List, [], ◌∷◌, ◌++◌, map, length, filter_by, filter_map,
  exists_by, if◌then◌else◌,
}
use cftm.Base.Text.{◌<>◌}
use cftm.Model.{AccessApp, ServiceToken, Tunnel}
use cftm.Model.Clock.{Time, zero_time}
use cftm.Health.{AlertCoverage}
use cftm.Store.Inventory.{Inventory, replace_access_apps, replace_service_tokens}
use cftm.Store.Tables.{stamp}
use cftm.Client.Access.{App, Policy, Token, domains, raw_domains, is_bypass, has_service_token_rule}
use cftm.Audit.Alerts
use cftm.Audit.Alerts.{audit_alerts}
use cftm.Collector.Capabilities.{
  Capabilities, Call, CallError, failed, answered, note_call, error_of, error_text, cap_access_apps,
  cap_service_tokens, cap_notifications,
}

pub record World : Type 0 where
  pub apps : Call (List App)
  pub policies : String → Call (List Policy)
  pub tokens : Call (List Token)
  pub alert_policies : Call (List Alerts.Policy)
  -- whether ReplaceAccessApps, ReplaceServiceTokens, the two SetMeta and Tunnels get through to the
  -- database
  pub saves_apps : Bool
  pub saves_tokens : Bool
  pub saves_timestamp : Bool
  pub saves_alerts : Bool
  pub reads_tunnels : Bool

-- what an audit reads and writes
pub record State : Type 0 where
  pub inventory : Inventory
  -- AccessAuditAt, the zero time before the first audit
  pub audited_at : Time
  -- TunnelAlerts
  pub alerts : AlertCoverage
  pub capabilities : Capabilities

-- what an audit leaves, with its errors
pub record Audited : Type 0 where
  pub errors : List String
  pub state : State

abbrev pub stopped : String → State → Audited
stopped error st = record { errors = error ∷ []; state = st }

abbrev pub summary : App → AccessApp
summary app = record {
  id = app.id;
  name = app.name;
  domains = domains app;
  raw_domains = raw_domains app;
  app_type = app.app_type;
  has_bypass = false;
  has_token = false;
  bypass_policies = [];
  policy_count = 0;
  last_seen = zero_time;
}

-- the summary of an application with its policies, where they could be read
unfoldable pub with_policies : AccessApp → Call (List Policy) → AccessApp
with_policies a (failed e) = a
with_policies a (answered policies) = record a {
  policy_count = length policies;
  has_bypass = exists_by is_bypass policies;
  bypass_policies = map (λ p. p.name) (filter_by is_bypass policies);
  has_token = exists_by has_service_token_rule policies;
}

unfoldable pub stored_apps : World → List App → List AccessApp
stored_apps w apps = map (λ app. with_policies (summary app) (w.policies app.id)) apps

unfoldable pub policy_error : World → App → Option String
policy_error w app = elim (w.policies app.id) [
  | failed e ↦ some ("policies for " <> app.name <> ": " <> error_text e)
  | answered policies ↦ none
]

-- toStoreTokens
unfoldable pub to_store_tokens : List Token → List ServiceToken
to_store_tokens tokens =
    map
      (λ t. record {
        id = t.id;
        name = t.name;
        client_id = t.client_id;
        expires_at = t.expires_at;
        last_seen = zero_time;
      })
      tokens

abbrev pub noted {ℓ} : {A : Type ℓ} → State → String → Call A → Time → State
noted st key call now = record st {
  capabilities = note_call st.capabilities key (error_of call) now;
}

-- the caching in auditAlerts
unfoldable pub cache_alerts : World → State → AlertCoverage → Audited
cache_alerts w st coverage =
    if w.saves_alerts
    then record { errors = []; state = record st { alerts = coverage } }
    else stopped "cache alert coverage" st

-- the coverage from what the listing of policies answered
unfoldable pub alerts_from : World → State → List Tunnel → Call (List Alerts.Policy) → Audited
alerts_from w st tunnels (failed e) = cache_alerts w st (audit_alerts none tunnels)
alerts_from w st tunnels (answered policies) =
    if w.reads_tunnels
    then cache_alerts w st (audit_alerts (some policies) tunnels)
    else stopped "read tunnels for alert coverage" st

-- auditAlerts
unfoldable pub refresh_alerts : World → State → List Tunnel → Time → Audited
refresh_alerts w st tunnels now =
    alerts_from w (noted st cap_notifications w.alert_policies now) tunnels w.alert_policies

-- a transaction, where the statements get through to the database
abbrev pub through : Bool → Option Inventory → Option Inventory
through up written = if up then written else none

-- the rest of AuditAccess once the tokens are saved: the timestamp and the alerts
unfoldable pub stamp_audit : World → State → List Tunnel → Time → List String → Audited
stamp_audit w st tunnels now errors =
    let alerted = refresh_alerts w (record st { audited_at = stamp now }) tunnels now in
    if w.saves_timestamp
    then record { errors = errors ++ alerted.errors; state = alerted.state }
    else stopped "record audit timestamp" st

-- what follows the saving of the service tokens
unfoldable pub tokens_saved :
    World → State → List Tunnel → Time → List String → Option Inventory → Audited
tokens_saved w st tunnels now errors none = stopped "save service tokens" st
tokens_saved w st tunnels now errors (some inventory) =
    stamp_audit w (record st { inventory = inventory }) tunnels now errors

-- what follows the listing of the service tokens
unfoldable pub tokens_listed :
    World → State → List Tunnel → Time → List String → Call (List Token) → Audited
tokens_listed w st tunnels now errors (failed e) =
    stamp_audit w st tunnels now (errors ++ (("list service tokens: " <> error_text e) ∷ []))
tokens_listed w st tunnels now errors (answered tokens) =
    tokens_saved w st tunnels now errors
      (through w.saves_tokens (replace_service_tokens st.inventory (to_store_tokens tokens) now))

-- what follows the saving of the applications
unfoldable pub apps_saved :
    World → State → List Tunnel → Time → List App → Option Inventory → Audited
apps_saved w st tunnels now apps none = stopped "save access apps" st
apps_saved w st tunnels now apps (some inventory) =
    tokens_listed w (noted (record st { inventory = inventory }) cap_service_tokens w.tokens now)
      tunnels now (filter_map (policy_error w) apps) w.tokens

-- what follows the listing of the applications
unfoldable pub apps_listed : World → State → List Tunnel → Time → Call (List App) → Audited
apps_listed w st tunnels now (failed e) = stopped ("list access apps: " <> error_text e) st
apps_listed w st tunnels now (answered apps) =
    apps_saved w st tunnels now apps
      (through w.saves_apps (replace_access_apps st.inventory (stored_apps w apps) now))

-- AuditAccess
unfoldable pub audit_access : World → State → List Tunnel → Time → Audited
audit_access w st tunnels now =
    apps_listed w (noted st cap_access_apps w.apps now) tunnels now w.apps
