-- ===== src/Store/Log.antt =====
-- AddEvents, AddProbeResults, AddPollRun and Prune of internal/store/queries.go. The ids of the rows
-- are their places.
pub mod Retention
mod Tests
use cftm.Base.{
  ℕ, Bool, true, false, not, ltb, nat_eq, length, List, [], ◌∷◌, ◌++◌, map, filter_by,
  if◌then◌else◌,
}
use cftm.Model.{Event, ProbeResult}
use cftm.Model.Clock.{Time, to_unix}
use cftm.Store.Tables.{Tables, PollRun, stamp}

abbrev pub event_row : Event → Event
event_row e = record e { timestamp = stamp e.timestamp }

-- AddEvents
unfoldable pub add_events : Tables → List Event → Tables
add_events db events =
    if nat_eq (length events) 0
    then db
    else record db { events = db.events ++ map event_row events }

abbrev pub probe_row : ProbeResult → ProbeResult
probe_row r = record r { checked_at = stamp r.checked_at }

-- AddProbeResults
unfoldable pub add_probe_results : Tables → List ProbeResult → Tables
add_probe_results db results =
    if nat_eq (length results) 0
    then db
    else record db { probe_results = db.probe_results ++ map probe_row results }

abbrev pub run_row : PollRun → PollRun
run_row r = record r { started_at = stamp r.started_at }

-- AddPollRun
unfoldable pub add_poll_run : Tables → PollRun → Tables
add_poll_run db run = record db { poll_runs = db.poll_runs ++ (run_row run ∷ []) }

-- Prune
unfoldable pub prune : Tables → Time → Tables
prune db cutoff = record db {
  history = filter_by (λ r. not (ltb r.changed_at (to_unix cutoff))) db.history;
  probe_results =
      filter_by (λ r. not (ltb (to_unix r.checked_at) (to_unix cutoff))) db.probe_results;
  events = filter_by (λ e. not (ltb (to_unix e.timestamp) (to_unix cutoff))) db.events;
  poll_runs = filter_by (λ r. not (ltb (to_unix r.started_at) (to_unix cutoff))) db.poll_runs;
}
