-- ===== src/Collector/Cycle/Outcome.antt =====
-- What is on record after a cycle.
use cftm.Base.{
  ℕ, suc, String, true, not, ◌&&◌, nat_eq, ltb, ◌≡◌, ◌≤◌, refl, ◌%◌, ◌*◌, List, Memᴰ,
  mem-append_right, mem-filter_by, if◌then◌else◌, if_split, arith,
}
use mathlib.Core.List.Memᴰ.{head}
use cftm.Model.Clock.{Time, ago, day, to_unix, from_unix}
use cftm.Store.Tables.{Tables, stamp}
use cftm.Store.Log.{add_poll_run, run_row, prune}
use cftm.Collector.Api.{World}
use cftm.Collector.Poll.{poll, append_events}
use cftm.Collector.Cycle.{
  prune_every_cycles, Config, Status, run_of, failure_events, record_run, poll_once,
}

to_unix-stamp : (t : Time) → to_unix (stamp t) ≡ to_unix t
unfolding stamp to_unix from_unix
to_unix-stamp t = ground arith

to_unix_mono : (t d : Time) → to_unix (ago t d) ≤ to_unix t
unfolding to_unix
to_unix_mono t d = ground arith

-- what is as new as the present survives retention
fresh : (t d : Time) → not (ltb (to_unix (stamp t)) (to_unix (ago t d))) ≡ true
fresh t d = let h = to_unix_mono t d in let k = to_unix-stamp t in ground arith

run-kept :
    (cfg : Config) (world : World) (db : Tables) (started : Time) (elapsed : ℕ)
    (errors : List String) (cycle : ℕ)
    → world.adds_run ≡ true
    → Memᴰ
        (run_row (run_of started elapsed errors))
        (record_run cfg world db started elapsed errors cycle).poll_runs
unfolding record_run prune add_poll_run
run-kept cfg world db started elapsed errors cycle adds =
    if_split Has (nat_eq (cycle % prune_every_cycles) 0 && world.prunes) _ _
      (λ e.
        mem-filter_by (λ r. not (ltb (to_unix r.started_at) (to_unix (ago started kept_for))))
          run_added.poll_runs added (fresh started kept_for))
      (λ e. added)
  where
    Has : Tables → Type 0
    Has t = Memᴰ (run_row (run_of started elapsed errors)) t.poll_runs

    kept_for : Time
    kept_for = cfg.retention_days * day

    noted : Tables
    noted = append_events world db (failure_events started errors)

    run_added : Tables
    run_added = if world.adds_run then add_poll_run noted (run_of started elapsed errors) else noted

    added : Has run_added
    added =
        if_split Has world.adds_run _ _ (λ e. mem-append_right noted.poll_runs (head refl))
          (λ e. absurd (ground arith))

-- Every cycle whose row the database accepts is on record after it, failed or not, also where the
-- same cycle prunes.
pub poll_once-recorded :
    (cfg : Config) (world : World) (db : Tables) (status : Status) (started : Time) (elapsed : ℕ)
    → world.adds_run ≡ true
    → Memᴰ
        (run_row (
          run_of started elapsed
            (poll world cfg.config_refresh_every status.cycles db started).errors))
        (poll_once cfg world db status started elapsed).db.poll_runs
unfolding poll_once
poll_once-recorded cfg world db status started elapsed adds =
    let p = poll world cfg.config_refresh_every status.cycles db started in
    run-kept cfg world p.db started elapsed p.errors (suc status.cycles) adds
