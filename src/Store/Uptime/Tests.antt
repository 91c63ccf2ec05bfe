-- ===== src/Store/Uptime/Tests.antt =====
-- Ten minutes of history: a discovery, an outage and a recovery, and a day to look back.
use cftm.Base.{ℕ, String, ◌≡◌, ◌≤◌, refl, true, List, [], ◌∷◌, ◌*◌}
use cftm.Base
use cftm.Model.{Uptime}
use cftm.Model.Clock.{second, day, to_unix, from_unix}
use cftm.Store.History.{HistoryRow, status_history, status_at, last_status}
use cftm.Store.Uptime.{uptime_for, uptime_of, measured, walk, healthy_time}
use cftm.Store.Uptime.Bound.{uptime_for-bound}

abbrev became : String → String → ℕ → HistoryRow
became from_status status at = record {
  tunnel_id = "t1";
  from_status = from_status;
  status = status;
  changed_at = at;
}

abbrev rows : List HistoryRow
rows =
    became "" "healthy" 100000
    ∷ became "down" "healthy" 100500
    ∷ became "healthy" "down" 100200
    ∷ []

abbrev seen : Uptime
seen = record { window = 600 * second; healthy = 300 * second; changes = 2; observed = true }

clamped : uptime_for rows "t1" day (100600 * second) ≡ seen
unfolding uptime_for uptime_of measured walk healthy_time status_history status_at last_status
    to_unix from_unix Base.filter_by Base.sort_by Base.insert_by
clamped = refl

uptime_for-bound_example :
    (uptime_for rows "t1" day (100600 * second)).healthy
    ≤ (uptime_for rows "t1" day (100600 * second)).window
uptime_for-bound_example = uptime_for-bound rows "t1" day (100600 * second)
