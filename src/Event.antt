-- ===== src/Event.antt =====
-- internal/collector/events_meta.go, and the events that a difference of two snapshots raises
-- (tunnelEvents and connectorEvents of internal/collector/collector.go).
pub mod Laws
mod Tests
use cftm.Base.{
  ℕ, String, Bool, not, ◌||◌, List, [], ◌∷◌, ◌++◌, map, ◌==◌, nat_eq, if◌then◌else◌, exists_by,
  flat_map, filter_by, ◌&&◌,
}
use cftm.Base.Text.{◌<>◌, show_nat, quote}
use cftm.Model.{Event, Tunnel, Connector, StatusChange, ConnectorChange, TunnelDiff, ConnectorDiff}
use cftm.Model.Clock.{Time}
use cftm.Model.Kind
use cftm.Severity.{Severity, info, warning, critical}
use cftm.Health.{short_id}
use cftm.Probe.{is_failure}

-- EventSeverity
unfoldable pub event_severity : Event → Severity
event_severity e =
    if e.kind == Kind.poll_failed || e.kind == Kind.tunnel_removed
    then critical
    else if e.kind == Kind.tunnel_status
    then (if e.to_state == "healthy" then info else critical)
    else if e.kind == Kind.connector_removed
    then warning
    else if e.kind == Kind.probe
    then (if is_failure e.to_state then warning else info)
    else info

-- EventLabel
unfoldable pub event_label : String → String
event_label kind =
    if kind == Kind.tunnel_status
    then "status"
    else if kind == Kind.tunnel_added
    then "tunnel added"
    else if kind == Kind.tunnel_removed
    then "tunnel removed"
    else if kind == Kind.connector_added
    then "connector up"
    else if kind == Kind.connector_removed
    then "connector down"
    else if kind == Kind.config_changed
    then "config"
    else if kind == Kind.version_drift
    then "version"
    else if kind == Kind.probe
    then "probe"
    else if kind == Kind.access_coverage
    then "access"
    else if kind == Kind.service_token_aging
    then "service token"
    else if kind == Kind.origin_country
    then "origin"
    else if kind == Kind.poll_failed
    then "poll failed"
    else kind

-- the fields that a literal of the source leaves out
abbrev pub event : Time → String → String → String → String → String → Event
event timestamp kind tunnel_id from_state to_state message = record {
  id = 0;
  timestamp = timestamp;
  kind = kind;
  tunnel_id = tunnel_id;
  hostname = "";
  from_state = from_state;
  to_state = to_state;
  message = message;
}

abbrev tunnel_added : Time → Tunnel → Event
tunnel_added now t =
    event now Kind.tunnel_added t.id "" t.status ("Tunnel " <> quote t.name <> " discovered")

abbrev tunnel_removed : Time → Tunnel → Event
tunnel_removed now t =
    event now Kind.tunnel_removed t.id t.status "" ("Tunnel " <> quote t.name <> " disappeared")

abbrev status_changed : StatusChange → Event
status_changed c =
    event c.changed_at Kind.tunnel_status c.tunnel_id c.from_status c.status
      ("Status changed from " <> c.from_status <> " to " <> c.status)

-- the `added` map of tunnelEvents
abbrev pub was_added : TunnelDiff → String → Bool
was_added diff id = exists_by (λ t. t.id == id) diff.added

-- tunnelEvents
unfoldable pub tunnel_events : TunnelDiff → Time → List Event
tunnel_events diff now =
    map (tunnel_added now) diff.added
    ++ (map (tunnel_removed now) diff.removed
        ++ map status_changed (filter_by (λ c. not (was_added diff c.tunnel_id)) diff.changes))

connector_changed : String → Time → ConnectorChange → List Event
connector_changed tunnel_id now c =
    (if not (c.from_version == c.to_version)
      then event now Kind.version_drift tunnel_id c.from_version c.to_version (
          "Connector "
          <> short_id c.id
          <> " changed cloudflared "
          <> c.from_version
          <> " to "
          <> c.to_version)
        ∷ []
      else [])
    ++ (if not (nat_eq c.from_config_version c.to_config_version)
        then event now Kind.config_changed tunnel_id "" "" (
            "Connector "
            <> short_id c.id
            <> " applied configuration version "
            <> show_nat c.to_config_version)
          ∷ []
        else [])

-- connectorEvents
unfoldable pub connector_events : String → ConnectorDiff → Time → List Event
unfolding connector_changed
connector_events tunnel_id diff now =
    map
      (λ c. event now Kind.connector_added tunnel_id "" c.version (
        "Connector "
        <> short_id c.id
        <> " connected (cloudflared "
        <> c.version
        <> ", "
        <> c.arch
        <> ")"))
      diff.added
    ++ (map
          (λ c.
            event now Kind.connector_removed tunnel_id c.version ""
              ("Connector " <> short_id c.id <> " disconnected"))
          diff.removed
        ++ flat_map (connector_changed tunnel_id now) diff.changed)
