-- ===== src/Server/Throttle/Spacing.antt =====
-- Rounds by hand are spaced out, and the wait that is told is long enough.
use cftm.Base.{
  not, ◌&&◌, ◌≡◌, ◌≤◌, ◌<◌, ◌+◌, ◌-◌, refl, ltb, Option, none, some, List, [], ◌∷◌, if_split, arith,
}
use cftm.Model.Clock.{Time, Duration, is_zero}
use cftm.Server.Throttle.{Throttle, manual_interval, keep_granted, reserve, granted}

-- no call at Go's zero time
abbrev pub AllPositive : List Time → Type 0
AllPositive [] = Unit
AllPositive (t ∷ ts) = (0 < t) × AllPositive ts

-- each time is a manual interval after the one before it
abbrev pub SpacedFrom : Time → List Time → Type 0
SpacedFrom last [] = Unit
SpacedFrom last (t ∷ ts) = (manual_interval + last ≤ t) × SpacedFrom t ts

abbrev pub Spread : List Time → Type 0
Spread [] = Unit
Spread (t ∷ ts) = SpacedFrom t ts

granted-SpacedFrom :
    (last : Time) (times : List Time)
    → 0 < last
    → AllPositive times
    → SpacedFrom last (granted (record { last = last }) times)
unfolding granted reserve
granted-SpacedFrom last [] h p = tt
granted-SpacedFrom last (now ∷ later) h p =
    if_split {A = Option Duration × Throttle}
      (λ r. SpacedFrom last (keep_granted r.0 now (granted r.1 later)))
      (not (is_zero last) && ltb now (manual_interval + last)) _ _
      (λ e. granted-SpacedFrom last later h p.1)
      (λ e. (ground arith, granted-SpacedFrom now later p.0 p.1))

-- However the calls come, the granted ones are at least fifteen seconds apart.
pub granted-Spread :
    (times : List Time) → AllPositive times → Spread (granted (record { last = 0 }) times)
unfolding granted reserve
granted-Spread [] p = tt
granted-Spread (now ∷ later) p = granted-SpacedFrom now later p.0 p.1

-- A caller who is refused and comes back after the told wait is granted the slot, if no one else took
-- it.
pub reserve-wait :
    (t : Throttle) (now : Time) (wait : Duration)
    → (reserve t now).0 ≡ some wait
    → (reserve t (now + wait)).0 ≡ none
unfolding reserve
reserve-wait t now wait h =
    if_split {A = Option Duration × Throttle}
      (λ r. r.0 ≡ some wait → (reserve t (now + wait)).0 ≡ none)
      (not (is_zero t.last) && ltb now (manual_interval + t.last)) _ _
      (λ e k. after_wait (some_inj k)) (λ e k. absurd (ground arith)) h
  where
    some_inj : {a b : Duration} → some a ≡ some b → a ≡ b
    some_inj k = ground arith

    after_wait : manual_interval + t.last - now ≡ wait → (reserve t (now + wait)).0 ≡ none
    after_wait k =
        if_split {A = Option Duration × Throttle} (λ r. r.0 ≡ none)
          (not (is_zero t.last) && ltb (now + wait) (manual_interval + t.last)) _ _
          (λ e. absurd (ground arith)) (λ e. refl)
