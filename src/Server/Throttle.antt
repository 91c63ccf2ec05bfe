-- ===== src/Server/Throttle.antt =====
-- The throttle of internal/server/handlers.go. Each call of reserve runs under the mutex and so is one
-- step.
pub mod Spacing
mod Tests
use cftm.Base.{
  ℕ, Bool, true, false, not, ◌&&◌, ◌+◌, ◌-◌, ◌*◌, nat_eq, ltb, Option, none, some, List, [], ◌∷◌,
  if◌then◌else◌,
}
use cftm.Model.Clock.{Time, Duration, is_zero, second}

abbrev pub manual_interval : Duration
manual_interval = 15 * second

pub record Throttle : Type 0 where
  pub last : Time

-- reserve: `none` grants the slot, `some wait` is the time that the caller has to wait
unfoldable pub reserve : Throttle → Time → Option Duration × Throttle
reserve t now =
    if not (is_zero t.last) && ltb now (manual_interval + t.last)
    then (some (manual_interval + t.last - now), t)
    else (none, record { last = now })

abbrev pub keep_granted : Option Duration → Time → List Time → List Time
keep_granted none now rest = now ∷ rest
keep_granted (some wait) now rest = rest

-- the calls at these times that are granted
unfoldable pub granted : Throttle → List Time → List Time
granted t [] = []
granted t (now ∷ later) = let r = reserve t now in keep_granted r.0 now (granted r.1 later)
