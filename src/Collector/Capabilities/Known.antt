-- ===== src/Collector/Capabilities/Known.antt =====
-- What is known of one area of the API after a call.
use cftm.Base.{
  String, Bool, true, false, ◌≡◌, refl, ◌==◌, Option, some, [], ◌∷◌, eq_iff, inl, inr, Bool-cases,
  if◌then◌else◌,
}
use cftm.Model.Clock.{Time}
use cftm.Collector.Capabilities.{
  Capabilities, Capability, CallError, known, put, note_call, capability_of,
}

known-put :
    (caps : Capabilities) (key k : String) (c : Capability)
    → known (put key c caps) k ≡ (if key == k then some c else known caps k)
unfolding known put
known-put [] key k c = refl
known-put ((l, d) ∷ caps) key k c = elim (Bool-cases (l == key)) [
  | inl e ↦ rw (e, (eq_iff l key).0 e) (overwritten (key == k) _ _ _)
  | inr e ↦ elim (Bool-cases (key == k)) [
    | inl h ↦ rw (e, known-put caps key k c, h, rw ((eq_iff key k).0 h) at e) refl
    | inr h ↦ rw (e, known-put caps key k c, h) refl
  ]
]
  where
    overwritten :
        (b : Bool) (x y z : Option Capability)
        → (if b then x else z) ≡ (if b then x else (if b then y else z))
    overwritten true x y z = refl
    overwritten false x y z = refl

-- After a call of one area of the API, the capability of that area is the outcome of the call (ok
-- without an error, forbidden where the error says that the permission is missing, else error), and
-- those of the other areas are as before.
pub known-note_call :
    (caps : Capabilities) (key k : String) (err : Option CallError) (now : Time)
    → known (note_call caps key err now) k
      ≡ (if key == k then some (capability_of err now) else known caps k)
unfolding note_call
known-note_call caps key k err now = known-put caps key k (capability_of err now)
