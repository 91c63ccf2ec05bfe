-- ===== src/Store/Inventory.antt =====
-- The tables access_apps and access_service_tokens: ReplaceAccessApps, AccessApps,
-- ReplaceServiceTokens and ServiceTokens of internal/store/queries.go. The JSON columns are kept
-- decoded. `none` is a transaction that fails, after which the tables are as before.
pub mod Read
use cftm.Base.{
  String, Bool, ◌==◌, Option, none, some, List, [], ◌∷◌, ◌++◌, exists_by, order_by, text_le,
  if◌then◌else◌,
}
use cftm.Model.{AccessApp, ServiceToken}
use cftm.Model.Clock.{Time}
use cftm.Store.Tables.{stamp}

pub record Inventory : Type 0 where
  pub apps : List AccessApp
  pub tokens : List ServiceToken

abbrev pub app_row : Time → AccessApp → AccessApp
app_row now a = record a { last_seen = stamp now }

-- INSERT INTO access_apps fails on an id that is there
unfoldable pub insert_apps : Time → List AccessApp → List AccessApp → Option (List AccessApp)
insert_apps now rows [] = some rows
insert_apps now rows (a ∷ apps) =
    let rest = insert_apps now (rows ++ (app_row now a ∷ [])) apps in
    if exists_by (λ r. r.id == a.id) rows then none else rest

-- ReplaceAccessApps
unfoldable pub replace_access_apps : Inventory → List AccessApp → Time → Option Inventory
replace_access_apps db apps now = elim (insert_apps now [] apps) [
  | none ↦ none
  | some rows ↦ some (record db { apps = rows })
]

-- AccessApps: ORDER BY name
unfoldable pub access_apps : Inventory → List AccessApp
access_apps db = order_by (λ a b. text_le a.name b.name) db.apps

abbrev pub token_row : Time → ServiceToken → ServiceToken
token_row now t = record t { expires_at = stamp t.expires_at; last_seen = stamp now }

-- INSERT INTO access_service_tokens fails on an id that is there
unfoldable pub insert_tokens :
    Time → List ServiceToken → List ServiceToken → Option (List ServiceToken)
insert_tokens now rows [] = some rows
insert_tokens now rows (t ∷ tokens) =
    let rest = insert_tokens now (rows ++ (token_row now t ∷ [])) tokens in
    if exists_by (λ r. r.id == t.id) rows then none else rest

-- ReplaceServiceTokens
unfoldable pub replace_service_tokens : Inventory → List ServiceToken → Time → Option Inventory
replace_service_tokens db tokens now = elim (insert_tokens now [] tokens) [
  | none ↦ none
  | some rows ↦ some (record db { tokens = rows })
]

-- ServiceTokens: ORDER BY name
unfoldable pub service_tokens : Inventory → List ServiceToken
service_tokens db = order_by (λ a b. text_le a.name b.name) db.tokens
