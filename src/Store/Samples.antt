-- ===== src/Store/Samples.antt =====
-- LatestProbeResults, ProbeHistory, Events and LastPollRun: what is read of the logs
-- (internal/store/queries.go and internal/store/probes.go).
pub mod Latest
use cftm.Base.{
  ℕ, String, Bool, true, not, ◌&&◌, ◌==◌, nat_eq, ltb, leb, Option, none, some, List, [], ◌∷◌, map,
  filter_by, take, sort_by, holds, order_by, if◌then◌else◌,
}
use cftm.Model.{Event, ProbeResult}
use cftm.Model.Clock.{Time, to_unix}
use cftm.Store.Tables.{Tables, PollRun}

-- the row of a hostname with the greatest checked_at, so far. Where several rows share that second,
-- the statement of the source names no order among them; here it is the first one inserted.
unfoldable pub latest_from : Option ProbeResult → List ProbeResult → String → Option ProbeResult
latest_from best [] host = best
latest_from best (r ∷ rows) host =
    latest_from
      (if r.hostname == host && not (holds (λ b. leb r.checked_at b.checked_at) best)
        then some r
        else best)
      rows host

-- LatestProbeResults, at one hostname
unfoldable pub latest_probe_result : Tables → String → Option ProbeResult
latest_probe_result db host = latest_from none db.probe_results host

-- the columns that ProbeHistory reads
abbrev sample : ProbeResult → ProbeResult
sample r = record r { error = "" }

-- ProbeHistory
unfoldable pub probe_history : Tables → String → Time → Time → List ProbeResult
probe_history db host since until = map sample (
    sort_by (λ r. to_unix r.checked_at)
      (filter_by
        (λ r.
          r.hostname == host
          && ltb (to_unix since) (to_unix r.checked_at)
          && leb (to_unix r.checked_at) (to_unix until))
        db.probe_results))

-- later rows first, those of one second by their place
unfoldable pub newest_first : List Event → List Event
newest_first events = order_by (λ a b. ltb b.timestamp a.timestamp) events

-- Events
unfoldable pub latest_events : Tables → ℕ → List Event
latest_events db limit = take (if nat_eq limit 0 then 100 else limit) (newest_first db.events)

abbrev head_of {ℓ} : {A : Type ℓ} → List A → Option A
head_of [] = none
head_of (x ∷ xs) = some x

-- LastPollRun
unfoldable pub last_poll_run : Tables → Option PollRun
last_poll_run db = head_of (order_by (λ a b. ltb b.started_at a.started_at) db.poll_runs)
