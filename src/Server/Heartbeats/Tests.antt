-- ===== src/Server/Heartbeats/Tests.antt =====
-- A minute of outage in a day of twenty-four beats.
use cftm.Base.{String, refl, List, [], ◌∷◌, ◌*◌, ◌+◌, arith}
use mathlib.Core.List.Memᴰ.{head}
use cftm.Model.{StatusChange}
use cftm.Model.Clock.{Time, second, day}
use cftm.Server.Heartbeats.{build_heartbeats}
use cftm.Server.Heartbeats.Outages.{Shown, build_heartbeats-Shown}

abbrev became : String → Time → StatusChange
became status at = record { tunnel_id = "t1"; from_status = ""; status = status; changed_at = at }

abbrev changes : List StatusChange
changes = became "down" (day + 90 * second) ∷ became "healthy" (day + 150 * second) ∷ []

build_heartbeats-Shown_example :
    Shown "down" (build_heartbeats "healthy" changes day (day + day) 24)
build_heartbeats-Shown_example =
    build_heartbeats-Shown "healthy" changes day (day + day) 24 (became "down" (day + 90 * second))
      (omega arith, (omega arith, tt)) (head refl) (omega arith) (omega arith) (omega arith)
