-- ===== src/Server/Throttle/Tests.antt =====
-- Three clicks within half a minute.
use cftm.Base.{◌≡◌, refl, List, [], ◌∷◌, ◌*◌, arith}
use cftm.Model.Clock.{Time, second}
use cftm.Server.Throttle.{Throttle, reserve, granted}
use cftm.Server.Throttle.Spacing.{Spread, granted-Spread}

abbrev clicks : List Time
clicks = 100 * second ∷ 110 * second ∷ 116 * second ∷ []

second_refused : granted (record { last = 0 }) clicks ≡ 100 * second ∷ 116 * second ∷ []
unfolding granted reserve
second_refused = refl

granted-Spread_example : Spread (granted (record { last = 0 }) clicks)
granted-Spread_example = granted-Spread clicks (omega arith, (omega arith, (omega arith, tt)))

abbrev claimed : Throttle
claimed = record { last = 100 * second }
