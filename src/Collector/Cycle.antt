-- ===== src/Collector/Cycle.antt =====
-- PollOnce: a cycle with its record in the collector's own status and in the table poll_runs, and
-- retention on every 120th one.
pub mod Outcome
mod Tests
use cftm.Base.{
  ℕ, suc, String, Bool, true, false, not, ◌&&◌, nat_eq, ◌%◌, ◌*◌, List, [], ◌∷◌, if◌then◌else◌,
}
use cftm.Base.Text.{join}
use cftm.Model.{Event}
use cftm.Model.Clock.{Time, Duration, ago, day}
use cftm.Model.Kind
use cftm.Event.{event}
use cftm.Store.Tables.{Tables, PollRun}
use cftm.Store.Log.{add_poll_run, prune}
use cftm.Collector.Api.{World}
use cftm.Collector.Poll.{Polled, poll, append_events}

pub record Config : Type 0 where
  pub poll_interval : Duration
  pub config_refresh_every : ℕ
  pub retention_days : ℕ
  -- the map ExpectedCountries
  pub expected_countries : String → Bool

-- New, on the fields of the configuration
unfoldable pub new_config : Config → Config
new_config cfg =
    if nat_eq cfg.config_refresh_every 0 then record cfg { config_refresh_every = 10 } else cfg

-- Status, without the quota that Collector.Status fills in from the client when it is asked
pub record Status : Type 0 where
  pub last_run : Time
  pub last_success : Time
  pub last_error : String
  pub duration_ms : ℕ
  pub cycles : ℕ

abbrev pub prune_every_cycles : ℕ
prune_every_cycles = 120

-- err == nil: errors.Join of no error is nil
abbrev pub succeeded : List String → Bool
succeeded [] = true
succeeded (e ∷ es) = false

-- errors.Join
abbrev pub error_text : List String → String
error_text errors = join errors "\n"

-- what PollOnce does to the status under its lock
unfoldable pub note : Status → Time → ℕ → List String → Status
note status started elapsed errors =
    if succeeded errors
    then record status {
      last_run = started;
      last_success = started;
      last_error = "";
      duration_ms = elapsed;
      cycles = suc status.cycles;
    }
    else record status {
      last_run = started;
      last_error = error_text errors;
      duration_ms = elapsed;
      cycles = suc status.cycles;
    }

abbrev pub failure_event : Time → List String → Event
failure_event started errors = event started Kind.poll_failed "" "" "" (error_text errors)

-- the batch of a failed cycle
abbrev pub failure_events : Time → List String → List Event
failure_events started errors = if succeeded errors then [] else failure_event started errors ∷ []

-- the row of the cycle in poll_runs
abbrev pub run_of : Time → ℕ → List String → PollRun
run_of started elapsed errors = record {
  started_at = started;
  duration_ms = elapsed;
  succeeded = succeeded errors;
  error = error_text errors;
}

-- the writes of PollOnce after the cycle, with the number of this cycle
unfoldable pub record_run : Config → World → Tables → Time → ℕ → List String → ℕ → Tables
record_run cfg world db started elapsed errors cycle =
    let noted = append_events world db (failure_events started errors) in
    let run = run_of started elapsed errors in
    let run_added = if world.adds_run then add_poll_run noted run else noted in
    if nat_eq (cycle % prune_every_cycles) 0 && world.prunes
    then prune run_added (ago started (cfg.retention_days * day))
    else run_added

-- what a cycle leaves: the tables, the status, and the batches handed to the event sink
pub record Cycled : Type 0 where
  pub db : Tables
  pub status : Status
  pub events : List Event
  pub failures : List Event

-- PollOnce
unfoldable pub poll_once : Config → World → Tables → Status → Time → ℕ → Cycled
poll_once cfg world db status started elapsed =
    let p = poll world cfg.config_refresh_every status.cycles db started in
    record {
      db = record_run cfg world p.db started elapsed p.errors (suc status.cycles);
      status = note status started elapsed p.errors;
      events = p.events;
      failures = failure_events started p.errors;
    }
