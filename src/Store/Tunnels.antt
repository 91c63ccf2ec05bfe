-- ===== src/Store/Tunnels.antt =====
-- SaveTunnels of internal/store/queries.go, where its statements succeed.
pub mod Saved
mod Repeat
mod Tests
use cftm.Base.{
  ℕ, String, Bool, true, false, not, ◌||◌, ◌==◌, Option, none, some, List, [], ◌∷◌, ◌++◌, map,
  exists_by, filter_by, if◌then◌else◌,
}
use cftm.Model.{Tunnel, StatusChange, TunnelDiff}
use cftm.Model.Clock.{Time, to_unix}
use cftm.Store.History.{HistoryRow}
use cftm.Store.Tables.{Tables, stamp}

abbrev pub or_else {ℓ} : {A : Type ℓ} → Option A → Option A → Option A
or_else (some a) o = some a
or_else none o = o

-- a lookup in the map that tunnelsByID builds: the last row with an id wins
unfoldable pub by_id : List Tunnel → String → Option Tunnel
by_id [] id = none
by_id (t ∷ ts) id = or_else (by_id ts id) (if t.id == id then some t else none)

-- the status of an absent tunnel is the zero value's
abbrev pub status_before : Option Tunnel → String
status_before none = ""
status_before (some p) = p.status

abbrev pub first_seen : Option Tunnel → Time → Time
first_seen none now = now
first_seen (some p) now = p.first_seen

abbrev pub is_none {ℓ} : {A : Type ℓ} → Option A → Bool
is_none none = true
is_none (some a) = false

-- `!existed || prev.Status != t.Status`
abbrev pub has_changed : Option Tunnel → Tunnel → Bool
has_changed prev t = is_none prev || not (status_before prev == t.status)

abbrev pub change_of : Option Tunnel → Time → Tunnel → StatusChange
change_of prev now t = record {
  tunnel_id = t.id;
  from_status = status_before prev;
  status = t.status;
  changed_at = now;
}

-- INSERT INTO tunnel_status_history
abbrev pub history_row : StatusChange → HistoryRow
history_row c = record {
  tunnel_id = c.tunnel_id;
  from_status = c.from_status;
  status = c.status;
  changed_at = to_unix c.changed_at;
}

-- the row of INSERT INTO tunnels
abbrev pub tunnel_row : Time → Time → Tunnel → Tunnel
tunnel_row first now t = record t {
  created_at = stamp t.created_at;
  conns_active_at = stamp t.conns_active_at;
  conns_inactive_at = stamp t.conns_inactive_at;
  first_seen = stamp first;
  last_seen = stamp now;
}

-- ON CONFLICT(id) DO UPDATE keeps first_seen
unfoldable pub update_rows : Tunnel → List Tunnel → List Tunnel
update_rows row [] = []
update_rows row (t ∷ ts) =
    (if t.id == row.id then record row { first_seen = t.first_seen } else t) ∷ update_rows row ts

unfoldable pub upsert : Tunnel → List Tunnel → List Tunnel
upsert row rows =
    if exists_by (λ t. t.id == row.id) rows then update_rows row rows else rows ++ (row ∷ [])

-- what the loop over the snapshot builds
pub record Saving : Type 0 where
  pub added : List Tunnel
  pub changes : List StatusChange
  pub rows : List Tunnel
  pub history : List HistoryRow

-- the body of the loop over the snapshot
unfoldable pub save_one : List Tunnel → Time → Saving → Tunnel → Saving
save_one previous now s t =
    let prev = by_id previous t.id in
    let news = if has_changed prev t then change_of prev now t ∷ [] else [] in
    record {
      added = s.added ++ (if is_none prev then t ∷ [] else []);
      changes = s.changes ++ news;
      rows = upsert (tunnel_row (first_seen prev now) now t) s.rows;
      history = s.history ++ map history_row news;
    }

unfoldable pub save_all : List Tunnel → Time → Saving → List Tunnel → Saving
save_all previous now s [] = s
save_all previous now s (t ∷ ts) = save_all previous now (save_one previous now s t) ts

-- the `seen` map
abbrev pub is_seen : List Tunnel → String → Bool
is_seen tunnels id = exists_by (λ t. t.id == id) tunnels

-- the second loop: the rows of the tunnels that the snapshot lacks
unfoldable pub gone : List Tunnel → List Tunnel → List Tunnel
gone tunnels previous = filter_by (λ p. not (is_seen tunnels p.id)) previous

abbrev pub is_gone : List Tunnel → List Tunnel → String → Bool
is_gone tunnels previous id = exists_by (λ p. p.id == id) (gone tunnels previous)

abbrev pub is_left : List Tunnel → List Tunnel → String → Bool
is_left tunnels previous id = not (is_gone tunnels previous id)

abbrev pub unsaved : Tables → Saving
unsaved db = record { added = []; changes = []; rows = db.tunnels; history = db.history }

-- SaveTunnels. Removed stands in the order of the rows; the source's order is that of a Go map.
unfoldable pub save_tunnels : Tables → List Tunnel → Time → TunnelDiff × Tables
save_tunnels db tunnels now =
    let s = save_all db.tunnels now (unsaved db) tunnels in
    (
      record { changes = s.changes; added = s.added; removed = gone tunnels db.tunnels },
      record db {
        tunnels = filter_by (λ t. is_left tunnels db.tunnels t.id) s.rows;
        history = s.history;
        connectors = filter_by (λ c. is_left tunnels db.tunnels c.tunnel_id) db.connectors;
        connections = filter_by (λ c. is_left tunnels db.tunnels c.tunnel_id) db.connections;
        ingress = filter_by (λ r. is_left tunnels db.tunnels r.tunnel_id) db.ingress;
      },
    )
