-- ===== src/Collector/Probes/Transition.antt =====
-- When a round raises an event.
use cftm.Base.{false, ◌==◌, ◌≡◌, ◌∙◌, ap, none, some, List, ◌∷◌, ◌++◌, exists_by, if◌then◌else◌}
use cftm.Model.{IngressRule, ProbeResult}
use cftm.Store.Tables.{Tables, stamp}
use cftm.Store.Log.{add_probe_results}
use cftm.Store.Samples.{latest_probe_result}
use cftm.Store.Samples.Latest.{is_since, latest-add}
use cftm.Collector.Probes.{probe_event, event_of}

-- Once a round has stored its results, one of them for the hostname, and where every sample of that
-- hostname stored before lies in an earlier second, the next result for the hostname raises no event
-- if it has the same class, and otherwise one event, from the class that was stored to its own.
pub probe_event-next :
    (db : Tables) (xs ys : List ProbeResult) (r next : ProbeResult) (rules : List IngressRule)
    → exists_by (is_since (stamp r.checked_at) r.hostname) db.probe_results ≡ false
    → exists_by (λ q. q.hostname == r.hostname) xs ≡ false
    → exists_by (λ q. q.hostname == r.hostname) ys ≡ false
    → next.hostname ≡ r.hostname
    → probe_event rules
        (latest_probe_result (add_probe_results db (xs ++ (r ∷ ys))) next.hostname)
        next
      ≡ (if r.class == next.class then none else some (event_of rules r.class next))
unfolding probe_event
probe_event-next db xs ys r next rules early before behind same =
    ap (λ o. probe_event rules o next)
      (ap (latest_probe_result (add_probe_results db (xs ++ (r ∷ ys)))) same
        ∙ latest-add db xs ys r early before behind)
