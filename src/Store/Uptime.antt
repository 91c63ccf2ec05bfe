-- ===== src/Store/Uptime.antt =====
-- UptimeFor of internal/store/uptime.go. The record's `healthy` is the numerator of HealthyRatio
-- and its `window` the denominator; the ratio of an empty window is 0.
pub mod Bound
mod Tests
use cftm.Base.{
  ℕ, String, Bool, true, false, not, ◌==◌, ◌+◌, ◌-◌, Option, none, some, List, [], ◌∷◌, leb,
  if◌then◌else◌,
}
use cftm.Model.{StatusChange, Uptime}
use cftm.Model.Clock.{Time, Duration, ago, after}
use cftm.Model.Status
use cftm.Store.History.{HistoryRow, status_history, status_at}

-- the transitions that StatusAt has consumed
unfoldable pub skip_until : Time → List StatusChange → List StatusChange
skip_until start [] = []
skip_until start (c ∷ cs) =
    let rest = skip_until start cs in if not (after c.changed_at start) then rest else c ∷ cs

-- addHealthy
unfoldable pub healthy_time : String → Time → Time → Duration
healthy_time current from until = if current == Status.healthy then until - from else 0

-- the loop over the transitions, with the status and the time of the last one: the healthy time
-- and the number of transitions
unfoldable pub walk : String → Time → List StatusChange → Time → Duration × ℕ
walk current cursor [] now = (healthy_time current cursor now, 0)
walk current cursor (c ∷ cs) now =
    let rest = walk c.status c.changed_at cs now in
    if after c.changed_at now
    then (healthy_time current cursor now, 0)
    else (healthy_time current cursor c.changed_at + rest.0, rest.1 + 1)

-- what follows the choice of the effective start
unfoldable pub measured : String → Time → List StatusChange → Time → Uptime
measured current start changes now =
    if leb now start
    then record {
      window = 0;
      healthy = 0;
      changes = (walk current start changes now).1;
      observed = true;
    }
    else record {
      window = now - start;
      healthy = (walk current start changes now).0;
      changes = (walk current start changes now).1;
      observed = true;
    }

-- the two cases of `known`
unfoldable pub uptime_of : Option String → Duration → Time → List StatusChange → Time → Uptime
unfolding measured
uptime_of (some status) window start changes now =
    measured status start (skip_until start changes) now
uptime_of none window start [] now = record {
  window = window;
  healthy = 0;
  changes = 0;
  observed = false;
}
uptime_of none window start (c ∷ cs) now = measured c.status c.changed_at cs now

-- UptimeFor
unfoldable pub uptime_for : List HistoryRow → String → Duration → Time → Uptime
uptime_for rows tunnel_id window now =
    uptime_of (status_at rows tunnel_id (ago now window)) window (ago now window)
      (status_history rows tunnel_id (ago now window)) now
