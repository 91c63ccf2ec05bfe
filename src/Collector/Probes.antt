-- ===== src/Collector/Probes.antt =====
-- ProbeOnce, probeMessage and publicHostnames of internal/collector/probes.go. What the prober answers
-- and whether the statements get through are parameters.
pub mod Token
pub mod Transition
mod Tests
use cftm.Base.{
  ℕ, String, Bool, true, false, not, ◌||◌, ◌&&◌, ◌==◌, nat_eq, length, Option, none, some, List, [],
  ◌∷◌, exists_by, filter_map, holds, if◌then◌else◌,
}
use cftm.Base.Text.{◌<>◌, to_lower, show_nat}
use cftm.Model.{IngressRule, ProbeResult, Event}
use cftm.Model.Clock.{Time, is_zero}
use cftm.Model.Kind
use cftm.Health.{is_protected}
use cftm.Prober.{Target, targets}
use cftm.Store.Tables.{Tables}
use cftm.Store.Log.{add_events, add_probe_results}
use cftm.Store.Samples.{latest_probe_result}
use cftm.Store.Listing.{all_ingress}
use cftm.Store.Inventory.{access_apps}
use cftm.Audit.Access.{State}

-- the loop of publicHostnames over the rules, once the audit has run
abbrev pub is_named : List IngressRule → String → Bool
is_named rules host =
    exists_by (λ r. not (to_lower r.hostname == "") && to_lower r.hostname == host) rules

-- publicHostnames
unfoldable pub public_hostnames : State → List IngressRule → String → Bool
public_hostnames st rules host =
    if is_zero st.audited_at
    then false
    else is_named rules host && not (is_protected (access_apps st.inventory) host)

-- probeMessage
unfoldable pub probe_message : ProbeResult → String
probe_message r =
    if not (r.error == "")
    then "Probe returned " <> r.class <> ": " <> r.error
    else "Probe returned "
      <> r.class
      <> " (HTTP "
      <> show_nat r.status_code
      <> ", "
      <> show_nat r.latency_ms
      <> "ms)"

-- hostToTunnel: the first rule of a hostname
unfoldable pub host_to_tunnel : List IngressRule → String → String
host_to_tunnel [] host = ""
host_to_tunnel (r ∷ rules) host =
    let rest = host_to_tunnel rules host in if r.hostname == host then r.tunnel_id else rest

abbrev pub class_before : Option ProbeResult → String
class_before none = ""
class_before (some prev) = prev.class

abbrev pub event_of : List IngressRule → String → ProbeResult → Event
event_of rules from_class r = record {
  id = 0;
  timestamp = r.checked_at;
  kind = Kind.probe;
  tunnel_id = host_to_tunnel rules r.hostname;
  hostname = r.hostname;
  from_state = from_class;
  to_state = r.class;
  message = probe_message r;
}

-- one round of the loop over the results
unfoldable pub probe_event : List IngressRule → Option ProbeResult → ProbeResult → Option Event
probe_event rules prev r =
    if holds (λ p. p.class == r.class) prev
    then none
    else some (event_of rules (class_before prev) r)

-- the events of a round, with the results that were stored before it
unfoldable pub probe_events : Tables → List IngressRule → List ProbeResult → List Event
probe_events db rules results =
    filter_map (λ r. probe_event rules (latest_probe_result db r.hostname) r) results

-- whether AddProbeResults and AddEvents get through to the database
pub record Writes : Type 0 where
  pub results : Bool
  pub events : Bool

-- the statements of ProbeOnce once the prober has answered
unfoldable pub save_round : Writes → Tables → List ProbeResult → List Event → Tables
save_round up db results events =
    let saved = add_probe_results db results in
    if not up.results
    then db
    else if nat_eq (length events) 0 || not up.events
    then saved
    else add_events saved events

-- ProbeOnce, where the reads get through: without a target the round ends at once
unfoldable pub probe_once : Writes → State → (List Target → List ProbeResult) → Tables → Tables
probe_once up st probe_all db =
    let rules = all_ingress db in
    let wanted = targets rules (public_hostnames st rules) in
    let results = probe_all wanted in
    if nat_eq (length wanted) 0
    then db
    else save_round up db results (probe_events db rules results)
