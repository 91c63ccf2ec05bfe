-- ===== src/Notify/Tests.antt =====
-- An outage that repeats, and its recovery.
use cftm.Base.{
  ℕ, String, ◌≡◌, refl, true, false, none, List, [], ◌∷◌, exists_by, arith, length, ◌*◌,
}
use mathlib.Core.List.Memᴰ.{head}
use cftm.Base.Text.{join}
use cftm.Model.{Event}
use cftm.Model.Clock.{hour, to_unix, ago, second}
use cftm.Model.Kind
use cftm.Severity.{warning, rank}
use cftm.Event.{event, event_severity}
use cftm.Notify.{Config, Answers, dispatch, notified_since, dedup_key, from_event, urgent_enough}
use cftm.Notify.Cooldown.{Spaced, none_yet, dispatch-Spaced}
use cftm.Notify.Delivery.{dispatch-notified}

abbrev cfg : Config
cfg = record { enabled = true; min_severity = warning; cooldown = hour }

abbrev went : ℕ → String → Event
went at state = event (at * second) Kind.tunnel_status "t1" "" state ""

abbrev fine : Answers
fine = record { query_fails = false; insert_fails = false; send_error = none }

abbrev batch : List (Event × Answers)
batch = (went 10000 "down", fine) ∷ (went 10030 "down", fine) ∷ (went 10060 "healthy", fine) ∷ []

abbrev no_names : String → String
no_names id = ""

two_outages_one_row : length (dispatch cfg "none" no_names [] batch) ≡ 1
unfolding dispatch from_event urgent_enough event_severity rank notified_since exists_by to_unix
    dedup_key join
two_outages_one_row = refl

dispatch-Spaced_example : Spaced hour (dispatch cfg "none" no_names [] batch)
dispatch-Spaced_example = dispatch-Spaced cfg "none" no_names [] batch none_yet

dispatch-notified_example :
    notified_since
      (dispatch cfg "none" no_names [] batch)
      (dedup_key (went 10000 "down"))
      (ago (10000 * second) hour)
    ≡ true
unfolding event_severity rank
dispatch-notified_example =
    dispatch-notified cfg "none" no_names [] batch (went 10000 "down") none (head refl) refl
      (omega arith)
