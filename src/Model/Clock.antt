-- ===== src/Model/Clock.antt =====
-- Times and durations, in nanoseconds. A time.Time is counted from the Unix epoch, and 0 stands for
-- Go's zero time; times before the epoch's first second are not modelled. Every duration that the
-- program keeps is at least 0. `to_unix` and `from_unix` are those of internal/store/store.go.
use cftm.Base.{ℕ, ◌-◌, ◌*◌, ◌/◌, Bool, nat_eq, ltb, if◌then◌else◌}

abbrev pub Time : Type 0
Time = ℕ

abbrev pub Duration : Type 0
Duration = ℕ

abbrev pub zero_time : Time
zero_time = 0

-- time.Time.IsZero
abbrev pub is_zero : Time → Bool
is_zero t = nat_eq t 0

-- t.After(u)
abbrev pub after : Time → Time → Bool
after t u = ltb u t

-- t.Before(u)
abbrev pub before : Time → Time → Bool
before t u = ltb t u

-- t.Add(-d), for a time that lies at least d after the epoch
abbrev pub ago : Time → Duration → Time
ago t d = t - d

abbrev pub second : Duration
second = 1000000000

abbrev pub hour : Duration
hour = 3600 * second

abbrev pub day : Duration
day = 24 * hour

-- toUnix
unfoldable pub to_unix : Time → ℕ
to_unix t = if is_zero t then 0 else t / second

-- fromUnix
unfoldable pub from_unix : ℕ → Time
from_unix n = if nat_eq n 0 then zero_time else n * second
