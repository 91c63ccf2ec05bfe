-- ===== src/Store/Log/Tests.antt =====
-- A tunnel that has been up for longer than the retention.
use cftm.Base.{◌≡◌, false, [], ◌∷◌, ◌*◌, arith}
use mathlib.Core.List.Memᴰ.{head, tail}
use cftm.Model.Clock.{hour, to_unix, second}
use cftm.Store.History.{HistoryRow}
use cftm.Store.Tables.{Tables, empty}
use cftm.Store.Uptime.{uptime_for}
use cftm.Store.Log.{prune}
use cftm.Store.Log.Retention.{Quiet, prune-unobserved}

abbrev discovered : HistoryRow
discovered = record { tunnel_id = "t1"; from_status = ""; status = "healthy"; changed_at = 1000 }

abbrev steady : Tables
steady = record empty { history = discovered ∷ [] }

steady-Quiet : Quiet steady "t1" (2000 * second)
unfolding to_unix
steady-Quiet r (head e) h = rw e (omega arith)
steady-Quiet r (tail m) h = elim m [ ]

prune-unobserved_example :
    (uptime_for (prune steady (2000 * second)).history "t1" hour (9000 * second)).observed ≡ false
prune-unobserved_example =
    prune-unobserved steady "t1" (2000 * second) hour (9000 * second) steady-Quiet
