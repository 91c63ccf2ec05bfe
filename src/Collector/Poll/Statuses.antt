-- ===== src/Collector/Poll/Statuses.antt =====
-- What a cycle does to the statuses of the tunnels and to their history.
use cftm.Base.{
  ℕ, String, Bool, true, not, ◌||◌, ◌==◌, ◌⊎◌, filter_by, ◌≡◌, refl, ◌∙◌, sym, ap, arith, nat_eq,
  ◌%◌, none, some, Option-cases, List, [], ◌∷◌, ◌++◌, map, length, if_split, inl, inr,
}
use mathlib.Core.Path.{subst}
use cftm.Model.{Tunnel, IngressRule, Event, Connector, ConnectorDiff}
use cftm.Model.Clock.{Time}
use cftm.Event.{tunnel_events, connector_events}
use cftm.Store.Tables.{Tables}
use cftm.Store.Log.{add_events}
use cftm.Store.Tunnels.{save_tunnels, history_row}
use cftm.Store.Tunnels.Saved.{status_in, save_tunnels-status, save_tunnels-history}
use cftm.Store.Connectors.{
  connectors_of, connector_diff, replace_connectors, insert_connectors, replace_connections,
}
use cftm.Store.Ingress.{ingress_of, ingress_changed, replace_ingress, insert_rules}
use cftm.Collector.Api.{
  World, Answer, failed, answered, ApiTunnel, ApiConnector, ApiConfiguration, to_store_tunnel,
  to_store_connections, to_store_connector, to_store_rules,
}
use cftm.Collector.Poll.{
  Synced, Polled, config_version_drifted, store_configuration, sync_configuration,
  after_configuration, after_connectors, store_connectors, sync_tunnel, collect, sync_all,
  append_events, flushed, poll_tunnels, poll,
}

-- the tables of the tunnels and of their history are untouched
abbrev pub Keeps : Tables → Tables → Type 0
Keeps db after = (after.tunnels ≡ db.tunnels) × (after.history ≡ db.history)

replace_ingress-cases :
    (db : Tables) (id : String) (rules : List IngressRule) (now : Time)
    → (replace_ingress db id rules now ≡ none)
      ⊎ ((changed : Bool) × (rows : List IngressRule) × (replace_ingress db id rules now
            ≡ some (changed, record db { ingress = rows })))
unfolding replace_ingress
replace_ingress-cases db id rules now = elim (Option-cases (insert_rules id now cleared rules)) [
  | inl e ↦ inl (rw (replace_ingress, e) refl)
  | inr (rows, e) ↦
      inr (ingress_changed (ingress_of db id) rules, rows, rw (replace_ingress, e) refl)
]
  where
    cleared : List IngressRule
    cleared = filter_by (λ r. not (r.tunnel_id == id)) db.ingress

replace_connectors-cases :
    (db : Tables) (id : String) (cs : List Connector) (now : Time)
    → (replace_connectors db id cs now ≡ none)
      ⊎ ((diff : ConnectorDiff) × (rows : List Connector) × (replace_connectors db id cs now
            ≡ some (diff, record db { connectors = rows })))
unfolding replace_connectors
replace_connectors-cases db id cs now = elim (Option-cases (insert_connectors id now cleared cs)) [
  | inl e ↦ inl (rw (replace_connectors, e) refl)
  | inr (rows, e) ↦
      inr (connector_diff (connectors_of db id) cs, rows, rw (replace_connectors, e) refl)
]
  where
    cleared : List Connector
    cleared = filter_by (λ c. not (c.tunnel_id == id)) db.connectors

module _ (world : World) (now : Time) where
  sync_configuration-Keeps :
      (db : Tables) (id : String) → Keeps db (sync_configuration world db id now).db
  unfolding sync_configuration store_configuration
  sync_configuration-Keeps db id = stored (world.configuration id)
    where
      stored : (a : Answer ApiConfiguration) → Keeps db (store_configuration world db id now a).db
      stored (failed e) = (refl, refl)
      stored (answered cfg) =
          if_split {A = Synced Bool} (λ s. Keeps db s.db)
            (not (world.reads_ingress id) || not (world.saves_ingress id)) _ _ (λ e. (refl, refl))
            (λ e.
              elim (replace_ingress-cases db id (to_store_rules id cfg.version 0 cfg.ingress) now) [
                | inl k ↦ rw k (refl, refl)
                | inr (changed, rows, k) ↦ rw k (refl, refl)
              ])

  after_connectors-Keeps :
      (db : Tables) (t : ApiTunnel) (force : Bool) (cs : List Connector) (events : List Event)
      → Keeps db (after_connectors world db t now force cs events).db
  unfolding after_connectors after_configuration replace_connections
  after_connectors-Keeps db t force cs events =
      if_split {A = Synced (List Event)} (λ s. Keeps db s.db) (not (world.saves_connections t.id)) _
        _ (λ e. (refl, refl))
        (λ e.
          if_split {A = Synced (List Event)} (λ s. Keeps db s.db)
            (force || config_version_drifted world stored t.id cs) _ _
            (λ k. sync_configuration-Keeps stored t.id) (λ k. (refl, refl)))
    where
      stored : Tables
      stored = replace_connections db t.id (to_store_connections t) now

  sync_tunnel-Keeps :
      (db : Tables) (t : ApiTunnel) (force : Bool) → Keeps db (sync_tunnel world db t now force).db
  unfolding sync_tunnel store_connectors
  sync_tunnel-Keeps db t force = stored (world.connectors t.id)
    where
      stored :
          (a : Answer (List ApiConnector)) → Keeps db (store_connectors world db t now force a).db
      stored (failed e) = (refl, refl)
      stored (answered cs) =
          if_split {A = Synced (List Event)} (λ s. Keeps db s.db)
            (not (world.saves_connectors t.id)) _ _ (λ e. (refl, refl))
            (λ e. elim (replace_connectors-cases db t.id (map (to_store_connector t.id) cs) now) [
              | inl k ↦ rw k (refl, refl)
              | inr (diff, rows, k) ↦ rw k (
                  after_connectors-Keeps (record db { connectors = rows }) t force
                    (map (to_store_connector t.id) cs) (connector_events t.id diff now))
            ])

  sync_all-Keeps :
      (force : Bool) (p : Polled) (ts : List ApiTunnel)
      → Keeps p.db (sync_all world now force p ts).db
  unfolding sync_all
  sync_all-Keeps force p [] = (refl, refl)
  sync_all-Keeps force p (t ∷ ts) =
      let s = sync_tunnel world p.db t now force in
      let first = sync_tunnel-Keeps p.db t force in
      let rest = sync_all-Keeps force (collect p s) ts in (rest.0 ∙ first.0, rest.1 ∙ first.1)

  flushed-Keeps : (p : Polled) → Keeps p.db (flushed world p).db
  unfolding append_events add_events
  flushed-Keeps p =
      if_split (Keeps p.db) (nat_eq (length p.events) 0 || not world.adds_events) _ _
        (λ e. (refl, refl))
        (λ e.
          if_split (Keeps p.db) (nat_eq (length p.events) 0) _ _ (λ k. (refl, refl))
            (λ k. (refl, refl)))

-- After a cycle whose list of tunnels is answered and stored, every tunnel id has the status that
-- the list gives it, and the history has grown by exactly the changes found, whatever the other calls
-- and statements of the cycle answer.
pub poll-statuses :
    (world : World) (refresh_every cycles : ℕ) (db : Tables) (now : Time) (ts : List ApiTunnel)
    → world.tunnels ≡ answered ts
    → world.saves_tunnels ≡ true
    → ((id : String)
        → status_in (poll world refresh_every cycles db now).db.tunnels id
          ≡ status_in (map to_store_tunnel ts) id)
      × ((poll world refresh_every cycles db now).db.history
          ≡ db.history ++ map history_row (save_tunnels db (map to_store_tunnel ts) now).0.changes)
unfolding poll poll_tunnels
poll-statuses world refresh_every cycles db now ts listed saves =
    subst (λ a. Holds (poll_tunnels world db now force a)) (sym listed)
      (if_split Holds (not world.saves_tunnels) _ _ (λ e. absurd (ground arith)) (λ e. stored))
  where
    tunnels : List Tunnel
    tunnels = map to_store_tunnel ts

    start : Polled
    start = record {
      db = (save_tunnels db tunnels now).1;
      events = tunnel_events (save_tunnels db tunnels now).0 now;
      errors = [];
    }

    force : Bool
    force = nat_eq (cycles % refresh_every) 0

    kept : Keeps start.db (flushed world (sync_all world now force start ts)).db
    kept =
        let done = sync_all-Keeps world now force start ts in
        let last = flushed-Keeps world now (sync_all world now force start ts) in
        (last.0 ∙ done.0, last.1 ∙ done.1)

    Holds : Polled → Type 0
    Holds p =
        ((id : String) → status_in p.db.tunnels id ≡ status_in tunnels id)
        × (p.db.history ≡ db.history ++ map history_row (save_tunnels db tunnels now).0.changes)

    stored : Holds (flushed world (sync_all world now force start ts))
    stored = (
      λ id. ap (λ rows. status_in rows id) kept.0 ∙ save_tunnels-status db tunnels now id,
      kept.1 ∙ save_tunnels-history db tunnels now,
    )
