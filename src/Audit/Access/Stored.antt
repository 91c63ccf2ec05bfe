-- ===== src/Audit/Access/Stored.antt =====
-- Which hostnames the stored applications protect after an audit.
use cftm.Base.{
  String, Bool, true, false, not, order_by, text_le, ◌&&◌, ◌==◌, ◌≡◌, ◌⊎◌, ◌<◌, inl, inr, refl, ◌∙◌,
  sym, ap, arith, Option, none, some, List, [], ◌∷◌, exists_by, exists_by-map, exists_by_congr,
  exists_by-distinct, length, Option-cases, if_split,
}
use mathlib.Core.Option.{some-injective, none-ne-some}
use cftm.Base.Text.{to_lower}
use cftm.Model.{ServiceToken, AccessApp, Tunnel}
use cftm.Model.Clock.{Time}
use cftm.Health.{AlertCoverage, is_protected}
use cftm.Store.Inventory.{
  Inventory, insert_tokens, access_apps, replace_access_apps, replace_service_tokens,
}
use cftm.Store.Inventory.Read.{exists_by-access_apps}
use cftm.Client.Access.{App, Policy, Token, domains, normalize_domain}
use cftm.Collector.Capabilities.{Call, failed, answered}
use cftm.Audit.Alerts
use cftm.Audit.Access.{
  World, State, Audited, audit_access, apps_listed, apps_saved, tokens_listed, tokens_saved,
  stamp_audit, refresh_alerts, alerts_from, cache_alerts, through, stored_apps, summary,
  with_policies,
}

-- one of the domains of the application is the hostname, once its scheme and path are dropped
abbrev pub names : String → App → Bool
names host a =
    exists_by (λ d. not (normalize_domain d == "") && to_lower (normalize_domain d) == host)
      (a.domain ∷ a.self_hosted_domains)

exists_by-with_policies :
    (q : String → Bool) (a : AccessApp) (c : Call (List Policy))
    → exists_by q (with_policies a c).domains ≡ exists_by q a.domains
unfolding with_policies
exists_by-with_policies q a (failed e) = refl
exists_by-with_policies q a (answered ps) = refl

domains-names :
    (host : String) (a : App) → exists_by (λ d. to_lower d == host) (domains a) ≡ names host a
unfolding domains
domains-names host a =
    exists_by-distinct (λ d. to_lower d == host) _ ∙ exists_by-map _ normalize_domain _

is_protected-stored_apps :
    (w : World) (host : String) (apps : List App)
    → is_protected (stored_apps w apps) host ≡ exists_by (names host) apps
unfolding is_protected stored_apps
is_protected-stored_apps w host apps =
    exists_by-map _ _ apps
    ∙ exists_by_congr _ _ apps (λ a.
      exists_by-with_policies (λ d. to_lower d == host) (summary a) (w.policies a.id)
      ∙ domains-names host a)

cache_alerts-inventory :
    (w : World) (st : State) (coverage : AlertCoverage)
    → (cache_alerts w st coverage).state.inventory ≡ st.inventory
unfolding cache_alerts
cache_alerts-inventory w st coverage =
    if_split {A = Audited} (λ a. a.state.inventory ≡ st.inventory) w.saves_alerts _ _ (λ k. refl)
      (λ k. refl)

alerts_from-inventory :
    (w : World) (st : State) (tunnels : List Tunnel) (c : Call (List Alerts.Policy))
    → (alerts_from w st tunnels c).state.inventory ≡ st.inventory
unfolding alerts_from
alerts_from-inventory w st tunnels (failed e) = cache_alerts-inventory w st _
alerts_from-inventory w st tunnels (answered policies) =
    if_split {A = Audited} (λ a. a.state.inventory ≡ st.inventory) w.reads_tunnels _ _
      (λ k. cache_alerts-inventory w st _) (λ k. refl)

stamp_audit-inventory :
    (w : World) (st : State) (tunnels : List Tunnel) (now : Time) (errors : List String)
    → (stamp_audit w st tunnels now errors).state.inventory ≡ st.inventory
unfolding stamp_audit refresh_alerts
stamp_audit-inventory w st tunnels now errors =
    if_split {A = Audited} (λ a. a.state.inventory ≡ st.inventory) w.saves_timestamp _ _
      (λ k. alerts_from-inventory w _ tunnels w.alert_policies) (λ k. refl)

replace_service_tokens-apps :
    (db db' : Inventory) (tokens : List ServiceToken) (now : Time)
    → replace_service_tokens db tokens now ≡ some db'
    → db'.apps ≡ db.apps
unfolding replace_service_tokens
replace_service_tokens-apps db db' tokens now h =
    elim (Option-cases (insert_tokens now [] tokens)) [
      | inl e ↦ absurd (none-ne-some db' (rw (e, replace_service_tokens) at h))
      | inr (rows, e) ↦
          ap (λ d. d.apps) (sym (some-injective _ _ (rw (e, replace_service_tokens) at h)))
    ]

through-written :
    (up : Bool) (written : Option Inventory) (db : Inventory)
    → through up written ≡ some db
    → written ≡ some db
through-written true written db h = h
through-written false written db h = absurd (none-ne-some db h)

tokens_saved-apps :
    (w : World) (st : State) (tunnels : List Tunnel) (now : Time) (errors : List String)
    (written : Option Inventory)
    → ((db : Inventory) → written ≡ some db → db.apps ≡ st.inventory.apps)
    → (tokens_saved w st tunnels now errors written).state.inventory.apps ≡ st.inventory.apps
unfolding tokens_saved
tokens_saved-apps w st tunnels now errors none h = refl
tokens_saved-apps w st tunnels now errors (some db) h =
    ap (λ d. d.apps) (stamp_audit-inventory w _ tunnels now errors) ∙ h db refl

tokens_listed-apps :
    (w : World) (st : State) (tunnels : List Tunnel) (now : Time) (errors : List String)
    (c : Call (List Token))
    → (tokens_listed w st tunnels now errors c).state.inventory.apps ≡ st.inventory.apps
unfolding tokens_listed
tokens_listed-apps w st tunnels now errors (failed e) =
    ap (λ d. d.apps) (stamp_audit-inventory w st tunnels now _)
tokens_listed-apps w st tunnels now errors (answered tokens) =
    tokens_saved-apps w st tunnels now errors _
      (λ db h. replace_service_tokens-apps st.inventory db _ now (through-written _ _ db h))

-- the inventory was kept with an error, or the applications were answered and protect what they name
Outcome : State → Audited → Call (List App) → Type 0
Outcome st a c =
    ((a.state.inventory ≡ st.inventory) × (0 < length a.errors))
    ⊎ ((apps : List App) × (c ≡ answered apps)
        × ((host : String)
            → is_protected (access_apps a.state.inventory) host ≡ exists_by (names host) apps))

apps_saved-Outcome :
    (w : World) (st : State) (tunnels : List Tunnel) (now : Time) (apps : List App)
    (written : Option Inventory)
    → ((db : Inventory)
        → written ≡ some db
        → replace_access_apps st.inventory (stored_apps w apps) now ≡ some db)
    → Outcome st (apps_saved w st tunnels now apps written) (answered apps)
unfolding Outcome apps_saved access_apps exists_by is_protected
apps_saved-Outcome w st tunnels now apps none h = inl (refl, omega arith)
apps_saved-Outcome w st tunnels now apps (some db) h = inr (
  apps,
  refl,
  λ host.
      ap (λ rows. is_protected (order_by (λ a b. text_le a.name b.name) rows) host)
        (tokens_listed-apps w _ tunnels now _ w.tokens)
      ∙ exists_by-access_apps _ now (λ a. refl) st.inventory db _ (h db refl)
      ∙ is_protected-stored_apps w host apps,
)

apps_listed-Outcome :
    (w : World) (st : State) (tunnels : List Tunnel) (now : Time) (c : Call (List App))
    → Outcome st (apps_listed w st tunnels now c) c
unfolding Outcome apps_listed
apps_listed-Outcome w st tunnels now (failed e) = inl (refl, omega arith)
apps_listed-Outcome w st tunnels now (answered apps) =
    apps_saved-Outcome w st tunnels now apps _ (λ db h. through-written _ _ db h)

-- An audit of the Access applications either keeps those of the inventory and reports an error, or
-- the API has answered its applications and the hostnames that the inventory protects afterwards
-- are exactly those that, but for case, are a domain or a self-hosted domain of an answered
-- application without its scheme and path.
pub audit_access-protected :
    (w : World) (st : State) (tunnels : List Tunnel) (now : Time)
    → ((audit_access w st tunnels now).state.inventory ≡ st.inventory)
        × (0 < length (audit_access w st tunnels now).errors)
      ⊎ (apps : List App) × (w.apps ≡ answered apps)
        × ((host : String)
            → is_protected (access_apps (audit_access w st tunnels now).state.inventory) host
              ≡ exists_by (names host) apps)
unfolding audit_access Outcome
audit_access-protected w st tunnels now = apps_listed-Outcome w _ tunnels now w.apps
