-- ===== src/Store/History.antt =====
-- The table tunnel_status_history and its queries (StatusHistory and StatusAt of
-- internal/store/uptime.go). The rows stand in the order of their ids.
use cftm.Base.{
  ℕ, String, ◌&&◌, ◌==◌, Option, none, some, List, [], ◌∷◌, map, leb, filter_by, sort_by,
}
use cftm.Model.{StatusChange}
use cftm.Model.Clock.{Time, to_unix, from_unix}

pub record HistoryRow : Type 0 where
  pub tunnel_id : String
  pub from_status : String
  pub status : String
  pub changed_at : ℕ

abbrev pub read_row : HistoryRow → StatusChange
read_row r = record {
  tunnel_id = r.tunnel_id;
  from_status = r.from_status;
  status = r.status;
  changed_at = from_unix r.changed_at;
}

-- StatusHistory
unfoldable pub status_history : List HistoryRow → String → Time → List StatusChange
status_history rows tunnel_id since = map read_row (
    sort_by (λ r. r.changed_at)
      (filter_by (λ r. r.tunnel_id == tunnel_id && leb (to_unix since) r.changed_at) rows))

-- the last row of an ascending order is the first of the descending one
unfoldable pub last_status : List HistoryRow → Option String
last_status [] = none
last_status (r ∷ []) = some r.status
last_status (r ∷ q ∷ qs) = last_status (q ∷ qs)

-- StatusAt; `none` is the `false` of the source
unfoldable pub status_at : List HistoryRow → String → Time → Option String
status_at rows tunnel_id t = last_status (
    sort_by (λ r. r.changed_at)
      (filter_by (λ r. r.tunnel_id == tunnel_id && leb r.changed_at (to_unix t)) rows))
