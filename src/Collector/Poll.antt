-- ===== src/Collector/Poll.antt =====
-- poll, syncTunnel, syncConfiguration and configVersionDrifted. A cycle is a function of the tables
-- and of what the outside answers; its result holds the tables after it, the batch of events that is
-- written and handed to the event sink, and the errors that are joined.
pub mod Statuses
pub mod Tests
use cftm.Base.{
  ℕ, String, Bool, true, false, not, ◌||◌, ◌&&◌, nat_eq, ltb, Option, none, some, List, [], ◌∷◌,
  ◌++◌, map, length, exists_by, ◌%◌, if◌then◌else◌,
}
use cftm.Base.Text.{◌<>◌}
use cftm.Model.{Event, Connector, TunnelDiff}
use cftm.Model.Clock.{Time}
use cftm.Model.Kind
use cftm.Health.{ingress_config_version}
use cftm.Event.{event, tunnel_events, connector_events}
use cftm.Store.Tables.{Tables, stamp}
use cftm.Store.Log.{add_events}
use cftm.Store.Tunnels.{save_tunnels}
use cftm.Store.Connectors.{replace_connectors, replace_connections}
use cftm.Store.Ingress.{ingress_of, replace_ingress}
use cftm.Collector.Api.{
  World, Answer, failed, answered, ApiTunnel, ApiConnector, ApiConfiguration, to_store_tunnel,
  to_store_connections, to_store_connector, to_store_rules,
}

-- the text of a database error, which the model does not know
abbrev pub db_error : String
db_error = "store: statement failed"

-- the loop of configVersionDrifted
abbrev pub has_drifted : ℕ → List Connector → Bool
has_drifted want connectors =
    exists_by (λ c. ltb 0 c.config_version && not (nat_eq c.config_version want)) connectors

-- configVersionDrifted
unfoldable pub config_version_drifted : World → Tables → String → List Connector → Bool
config_version_drifted world db tunnel_id connectors =
    if not (world.reads_ingress tunnel_id)
    then true
    else if nat_eq (length (ingress_of db tunnel_id)) 0
    then true
    else has_drifted (ingress_config_version (ingress_of db tunnel_id)) connectors

-- what a step on the tables returns: the tables, a value and the error
pub record Synced {ℓ} (A : Type ℓ) : Type ℓ where
  pub db : Tables
  pub value : A
  pub error : Option String

unfoldable pub store_configuration :
    World → Tables → String → Time → Answer ApiConfiguration → Synced Bool
store_configuration world db id now (failed e) = record { db = db; value = false; error = some e }
store_configuration world db id now (answered cfg) =
    if not (world.reads_ingress id) || not (world.saves_ingress id)
    then record { db = db; value = false; error = some db_error }
    else elim (replace_ingress db id (to_store_rules id cfg.version 0 cfg.ingress) now) [
      | none ↦ record { db = db; value = false; error = some db_error }
      | some done ↦ record { db = done.1; value = done.0; error = none }
    ]

-- syncConfiguration
unfoldable pub sync_configuration : World → Tables → String → Time → Synced Bool
sync_configuration world db id now = store_configuration world db id now (world.configuration id)

abbrev pub config_event : Time → String → Event
config_event now id = event now Kind.config_changed id "" "" "Ingress configuration changed"

-- what syncTunnel returns after syncConfiguration
unfoldable pub after_configuration :
    ApiTunnel → Time → List Event → Synced Bool → Synced (List Event)
after_configuration t now events s = record {
  db = s.db;
  value = elim s.error [
    | some e ↦ events
    | none ↦ events ++ (if s.value then config_event now t.id ∷ [] else [])
  ];
  error = elim s.error [
    | some e ↦ some ("configuration for " <> t.name <> ": " <> e)
    | none ↦ none
  ];
}

-- syncTunnel, once the connectors are stored
unfoldable pub after_connectors :
    World → Tables → ApiTunnel → Time → Bool → List Connector → List Event → Synced (List Event)
after_connectors world db t now force connectors events =
    let stored = replace_connections db t.id (to_store_connections t) now in
    if not (world.saves_connections t.id)
    then record {
      db = db;
      value = [];
      error = some ("save connections for " <> t.name <> ": " <> db_error);
    }
    else if force || config_version_drifted world stored t.id connectors
    then after_configuration t now events (sync_configuration world stored t.id now)
    else record { db = stored; value = events; error = none }

abbrev not_stored : Tables → ApiTunnel → Synced (List Event)
not_stored db t = record {
  db = db;
  value = [];
  error = some ("save connectors for " <> t.name <> ": " <> db_error);
}

-- syncTunnel, with the answer on the connectors
unfoldable pub store_connectors :
    World → Tables → ApiTunnel → Time → Bool → Answer (List ApiConnector) → Synced (List Event)
store_connectors world db t now force (failed e) = record {
  db = db;
  value = [];
  error = some ("connectors for " <> t.name <> ": " <> e);
}
store_connectors world db t now force (answered cs) =
    let connectors = map (to_store_connector t.id) cs in
    if not (world.saves_connectors t.id)
    then not_stored db t
    else elim (replace_connectors db t.id connectors now) [
      | none ↦ not_stored db t
      | some done ↦
          after_connectors world done.1 t now force connectors (connector_events t.id done.0 now)
    ]

-- syncTunnel
unfoldable pub sync_tunnel : World → Tables → ApiTunnel → Time → Bool → Synced (List Event)
sync_tunnel world db t now force = store_connectors world db t now force (world.connectors t.id)

-- the tables, the events and the errors of a cycle so far
pub record Polled : Type 0 where
  pub db : Tables
  pub events : List Event
  pub errors : List String

-- one round of the loop of poll: a failed tunnel contributes its error and none of its events
abbrev pub collect : Polled → Synced (List Event) → Polled
collect p s = record {
  db = s.db;
  events = elim s.error [ some e ↦ p.events | none ↦ p.events ++ s.value ];
  errors = elim s.error [ some e ↦ p.errors ++ (e ∷ []) | none ↦ p.errors ];
}

unfoldable pub sync_all : World → Time → Bool → Polled → List ApiTunnel → Polled
sync_all world now force p [] = p
sync_all world now force p (t ∷ ts) =
    sync_all world now force (collect p (sync_tunnel world p.db t now force)) ts

-- appendEvents, up to the event sink
unfoldable pub append_events : World → Tables → List Event → Tables
append_events world db events =
    if nat_eq (length events) 0 || not world.adds_events then db else add_events db events

abbrev pub flushed : World → Polled → Polled
flushed world p = record p { db = append_events world p.db p.events }

unfoldable pub poll_tunnels : World → Tables → Time → Bool → Answer (List ApiTunnel) → Polled
poll_tunnels world db now force (failed e) = record {
  db = db;
  events = [];
  errors = ("list tunnels: " <> e) ∷ [];
}
poll_tunnels world db now force (answered ts) =
    let saved = save_tunnels db (map to_store_tunnel ts) now in
    if not world.saves_tunnels
    then record { db = db; events = []; errors = ("save tunnels: " <> db_error) ∷ [] }
    else flushed world (
        sync_all world now force
          (record { db = saved.1; events = tunnel_events saved.0 now; errors = [] }) ts)

-- poll; every refresh_every-th cycle fetches all configurations
unfoldable pub poll : World → ℕ → ℕ → Tables → Time → Polled
poll world refresh_every cycles db now =
    poll_tunnels world db now (nat_eq (cycles % refresh_every) 0) world.tunnels
