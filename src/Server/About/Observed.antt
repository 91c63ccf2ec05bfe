-- ===== src/Server/About/Observed.antt =====
-- What the page says of an area of the API after a call.
use cftm.Base.{String, ◌≡◌, refl, ap, ◌∙◌, Option, none, some, eq_iff}
use cftm.Model.Clock.{Time}
use cftm.Collector.Capabilities.{
  CallError, Capability, Capabilities, known, note_call, capability_of,
}
use cftm.Collector.Capabilities.Known.{known-note_call}
use cftm.Server.About.{
  Config, Area, cap_disabled, switched_off, observed, permission, Permission, disabled_or, uncalled,
}

abbrev pub state_for : Option String → Capability → String
state_for none c = c.state
state_for (some reason) c = cap_disabled

known_after :
    (caps : Capabilities) (key : String) (err : Option CallError) (now : Time)
    → known (note_call caps key err now) key ≡ some (capability_of err now)
known_after caps key err now = known-note_call caps key key err now ∙ rw ((eq_iff key key).1 refl)

disabled_or-state :
    (area : Area) (off : Option String) (c : Capability) (p : Permission)
    → (disabled_or off p (observed area (some c) p)).state ≡ state_for off c
unfolding observed
disabled_or-state area none c p = refl
disabled_or-state area (some reason) c p = refl

-- After a call of an area of the API, its permission shows the outcome of that call, unless the
-- configuration switches the area off; then it shows that, whatever was observed.
pub permission-note_call :
    (cfg : Config) (caps : Capabilities) (area : Area) (err : Option CallError) (now : Time)
    → (permission cfg (note_call caps area.key err now) area).state
      ≡ state_for (switched_off cfg area.key) (capability_of err now)
unfolding permission
permission-note_call cfg caps area err now =
    let off = switched_off cfg area.key in
    let p = uncalled area in
    ap (λ k. (disabled_or off p (observed area k p)).state) (known_after caps area.key err now)
    ∙ disabled_or-state area off (capability_of err now) p
