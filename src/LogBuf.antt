-- ===== src/LogBuf.antt =====
-- internal/logbuf/logbuf.go: the ring buffer of recent log records. The mutex makes each call one
-- step, so a sequence of calls is a sequence of steps.
mod Refine
mod Tests
use cftm.Base.{
  ℕ, ◌+◌, ◌-◌, ◌%◌, List, [], ◌++◌, String, ltb, leb, if◌then◌else◌, replicate, set, take, drop,
  min,
}
use cftm.Model.Clock.{Time}

pub record Entry : Type 0 where
  pub time : Time
  pub level : String
  pub message : String

pub record Buffer : Type 0 where
  pub entries : List Entry
  pub start : ℕ
  pub count : ℕ
  pub capacity : ℕ

abbrev pub blank : Entry
blank = record { time = 0; level = ""; message = "" }

-- New, with the capacity that is asked for; one that is not positive is 0 here
pub new : ℕ → Buffer
new asked =
    let capacity = if leb asked 0 then 200 else asked in
    record { entries = replicate capacity blank; start = 0; count = 0; capacity = capacity }

-- Buffer.Add
pub add : Buffer → Entry → Buffer
add b e =
    let written = set b.entries ((b.start + b.count) % b.capacity) e in
    if ltb b.count b.capacity
    then record b { entries = written; count = b.count + 1 }
    else record b { entries = written; start = (b.start + 1) % b.capacity }

-- Buffer.Entries: the slice b.entries[start:min(start+count, max)], then b.entries[:count-n]
pub snapshot : Buffer → List Entry
snapshot b =
    let n = min (b.start + b.count) b.capacity - b.start in
    take n (drop b.start b.entries) ++ take (b.count - n) b.entries
