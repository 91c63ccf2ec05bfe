-- ===== src/Collector/Cycle/Tests.antt =====
-- The 120th cycle, which prunes.
use cftm.Base.{false, refl, ◌*◌, Memᴰ}
use cftm.Model.Clock.{second, hour}
use cftm.Store.Tables.{empty}
use cftm.Store.Log.{run_row}
use cftm.Collector.Poll.{poll}
use cftm.Collector.Poll.Tests.{world}
use cftm.Collector.Cycle.{Config, Status, run_of, poll_once}
use cftm.Collector.Cycle.Outcome.{poll_once-recorded}

abbrev cfg : Config
cfg = record {
  poll_interval = hour;
  config_refresh_every = 10;
  retention_days = 90;
  expected_countries = λ country. false;
}

abbrev status : Status
status = record { last_run = 0; last_success = 0; last_error = ""; duration_ms = 0; cycles = 119 }

poll_once-recorded_example :
    Memᴰ
      (run_row (run_of (9 * second) 3 (poll world 10 119 empty (9 * second)).errors))
      (poll_once cfg world empty status (9 * second) 3).db.poll_runs
poll_once-recorded_example = poll_once-recorded cfg world empty status (9 * second) 3 refl
