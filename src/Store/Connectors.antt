-- ===== src/Store/Connectors.antt =====
-- ReplaceConnectors, ReplaceConnections and Connectors of internal/store/queries.go.
pub mod Diff
mod Tests
use cftm.Base.{
  ℕ, String, Bool, true, false, not, ◌||◌, ◌==◌, nat_eq, Option, none, some, List, [], ◌∷◌, ◌++◌,
  exists_by, filter_by, filter_map, order_by, text_le, if◌then◌else◌,
}
use cftm.Model.{Connector, Connection, ConnectorChange, ConnectorDiff}
use cftm.Model.Clock.{Time}
use cftm.Store.Tables.{Tables, stamp}
use cftm.Store.Tunnels.{or_else, is_none}

-- Connectors: ORDER BY tunnel_id, id
unfoldable pub connectors_of : Tables → String → List Connector
connectors_of db tunnel_id =
    order_by
      (λ a b.
        if a.tunnel_id == b.tunnel_id then text_le a.id b.id else text_le a.tunnel_id b.tunnel_id)
      (filter_by (λ c. tunnel_id == "" || c.tunnel_id == tunnel_id) db.connectors)

-- a lookup in prevByID
unfoldable pub connector_by_id : List Connector → String → Option Connector
connector_by_id [] id = none
connector_by_id (c ∷ cs) id = or_else (connector_by_id cs id) (if c.id == id then some c else none)

unfoldable pub change_from : Option Connector → Connector → Option ConnectorChange
change_from none c = none
change_from (some p) c =
    if not (p.version == c.version) || not (nat_eq p.config_version c.config_version)
    then some (record {
      id = c.id;
      from_version = p.version;
      to_version = c.version;
      from_config_version = p.config_version;
      to_config_version = c.config_version;
    })
    else none

-- the two loops before the transaction of ReplaceConnectors
unfoldable pub connector_diff : List Connector → List Connector → ConnectorDiff
connector_diff previous connectors = record {
  added = filter_by (λ c. is_none (connector_by_id previous c.id)) connectors;
  removed = filter_by (λ c. not (exists_by (λ d. d.id == c.id) connectors)) previous;
  changed = filter_map (λ c. change_from (connector_by_id previous c.id) c) connectors;
}

abbrev pub connector_row : String → Time → Connector → Connector
connector_row tunnel_id now c = record c {
  tunnel_id = tunnel_id;
  run_at = stamp c.run_at;
  last_seen = stamp now;
}

-- INSERT INTO connectors fails on a primary key that is there
unfoldable pub insert_connectors :
    String → Time → List Connector → List Connector → Option (List Connector)
insert_connectors tunnel_id now rows [] = some rows
insert_connectors tunnel_id now rows (c ∷ cs) =
    let rest = insert_connectors tunnel_id now (rows ++ (connector_row tunnel_id now c ∷ [])) cs in
    if exists_by (λ r. r.id == c.id) rows then none else rest

-- ReplaceConnectors; `none` is a statement that fails, after which the tables are as before
unfoldable pub replace_connectors :
    Tables → String → List Connector → Time → Option (ConnectorDiff × Tables)
replace_connectors db tunnel_id connectors now =
    let cleared = filter_by (λ c. not (c.tunnel_id == tunnel_id)) db.connectors in
    elim (insert_connectors tunnel_id now cleared connectors) [
      | none ↦ none
      | some rows ↦
          some (
            connector_diff (connectors_of db tunnel_id) connectors,
            record db { connectors = rows },
          )
    ]

abbrev connection_row : String → Time → Connection → Connection
connection_row tunnel_id now c = record c {
  tunnel_id = tunnel_id;
  opened_at = stamp c.opened_at;
  last_seen = stamp now;
}

unfoldable pub update_connections : Connection → List Connection → List Connection
update_connections row [] = []
update_connections row (c ∷ cs) =
    (if c.uuid == row.uuid then row else c) ∷ update_connections row cs

-- INSERT INTO connections … ON CONFLICT(uuid) DO UPDATE
unfoldable pub upsert_connection : Connection → List Connection → List Connection
upsert_connection row rows =
    if exists_by (λ c. c.uuid == row.uuid) rows
    then update_connections row rows
    else rows ++ (row ∷ [])

unfoldable pub upsert_connections :
    String → Time → List Connection → List Connection → List Connection
upsert_connections tunnel_id now rows [] = rows
upsert_connections tunnel_id now rows (c ∷ cs) =
    upsert_connections tunnel_id now (upsert_connection (connection_row tunnel_id now c) rows) cs

-- ReplaceConnections
unfoldable pub replace_connections : Tables → String → List Connection → Time → Tables
replace_connections db tunnel_id conns now = record db {
  connections =
      upsert_connections tunnel_id now
        (filter_by (λ c. not (c.tunnel_id == tunnel_id)) db.connections) conns;
}
