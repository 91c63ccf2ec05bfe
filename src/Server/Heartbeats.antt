-- ===== src/Server/Heartbeats.antt =====
-- buildHeartbeats, statusRank and worseStatus of internal/server/viewbuilder.go.
pub mod Outages
mod Tests
use cftm.Base.{
  ℕ, zero, suc, String, Bool, true, false, not, ◌||◌, ◌==◌, ◌+◌, ◌-◌, ◌*◌, ◌/◌, ◌%◌, nat_eq, ltb,
  List, [], ◌∷◌, if◌then◌else◌,
}
use cftm.Base.Text.{◌<>◌, show_nat}
use cftm.Model.{StatusChange}
use cftm.Model.Clock.{Time, Duration, after, before, second, hour}
use cftm.Model.Status

-- Heartbeat of internal/web/viewmodels.go
pub record Heartbeat : Type 0 where
  pub status : String
  pub label : String

-- statusRank
unfoldable pub status_rank : String → ℕ
status_rank status =
    if status == Status.down
    then 4
    else if status == Status.degraded
    then 3
    else if status == Status.inactive
    then 2
    else if status == Status.healthy
    then 1
    else 0

-- worseStatus
unfoldable pub worse_status : String → String → String
worse_status a b = if ltb (status_rank a) (status_rank b) then b else a

-- two digits
abbrev pad : ℕ → String
pad n = if ltb n 10 then "0" <> show_nat n else show_nat n

-- start.UTC().Format("15:04")
unfoldable pub clock_text : Time → String
clock_text t = pad (t / hour % 24) <> ":" <> pad (t / (60 * second) % 60)

unfoldable pub label_of : Time → String → String
label_of start worst =
    clock_text start <> " UTC" <> (if worst == "" then " · no data" else " · " <> worst)

-- what the inner loop carries: the worst status of the bucket, the current one and the changes left
pub record Scan : Type 0 where
  pub worst : String
  pub current : String
  pub rest : List StatusChange

-- the inner loop of one bucket
unfoldable pub scan : Time → Time → String → String → List StatusChange → Scan
scan start end worst current [] = record { worst = worst; current = current; rest = [] }
scan start end worst current (c ∷ cs) =
    let worse = if not (before c.changed_at start) then worse_status worst c.status else worst in
    let further = scan start end worse c.status cs in
    if before c.changed_at end
    then further
    else record { worst = worst; current = current; rest = c ∷ cs }

-- the outer loop, from the bucket that starts at a time on
unfoldable pub beats : Duration → ℕ → Time → String → List StatusChange → List Heartbeat
beats width zero start current changes = []
beats width (suc left) start current changes =
    let s = scan start (start + width) current current changes in
    record { status = s.worst; label = label_of start s.worst }
    ∷ beats width left (start + width) s.current s.rest

-- buildHeartbeats
unfoldable pub build_heartbeats : String → List StatusChange → Time → Time → ℕ → List Heartbeat
build_heartbeats initial changes from to buckets =
    if nat_eq buckets 0 || not (after to from)
    then []
    else beats ((to - from) / buckets) buckets from initial changes
