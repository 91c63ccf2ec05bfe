-- ===== src/Server/Cards.antt =====
-- buildCard, heartbeats, Dashboard, toWebEvent, Events and tunnelDetail of
-- internal/server/viewbuilder.go. The reads get through to the database.
mod Tests
use cftm.Base.{
  ℕ, zero, suc, ◌+◌, ◌*◌, String, Bool, not, ◌&&◌, ◌==◌, length, Option, none, some, List, [], ◌∷◌,
  map, if◌then◌else◌,
}
use cftm.Model.{Tunnel, Connector, Connection, IngressRule, Event, Uptime}
use cftm.Model.Clock.{Time, Duration, day, ago}
use cftm.Severity.{Severity}
use cftm.Finding.{Finding, worst_severity}
use cftm.Event.{event_label, event_severity}
use cftm.Health.{short_id}
use cftm.Store.Tables.{Tables}
use cftm.Store.History.{status_at, status_history}
use cftm.Store.Uptime.{uptime_for}
use cftm.Store.Samples.{latest_events}
use cftm.Store.Listing.{all_tunnels}
use cftm.Server.Heartbeats.{Heartbeat, build_heartbeats}
use cftm.Server.Summary.{Probes, probe_summary}
use cftm.Server.AuditPage.{tunnel_names, to_web_ingress, WebIngress}
use cftm.Server.Origins.{Origins, origin_summary, hostname_set}
use cftm.Server.Quality.{Outcome, tunnel_quality}
use cftm.Store.Origins.{RequestOrigin}
use cftm.Store.Ignores.{Ignored}
use cftm.Server.Page.{
  Snapshot, card_findings, colos_of, versions_of, count_hostnames, connectors_at, connections_at,
  ingress_at, unprotected, muted_for,
}
use cftm.Web.Formats.{format_duration}

-- heartbeatBuckets
abbrev pub heartbeat_buckets : ℕ
heartbeat_buckets = 48

abbrev or_empty : Option String → String
or_empty none = ""
or_empty (some s) = s

-- heartbeats
unfoldable pub heartbeats : Tables → String → Time → List Heartbeat
heartbeats db id now =
    build_heartbeats (or_empty (status_at db.history id (ago now day)))
      (status_history db.history id (ago now day)) (ago now day) now heartbeat_buckets

-- Uptime of internal/web/viewmodels.go; the percentage is that of the uptime itself
pub record WebUptime : Type 0 where
  pub label : String
  pub uptime : Uptime
  pub nominal : Duration

-- toWebUptime
abbrev pub to_web_uptime : String → Duration → Uptime → WebUptime
to_web_uptime label nominal u = record { label = label; uptime = u; nominal = nominal }

-- TunnelCard of internal/web/viewmodels.go
pub record TunnelCard : Type 0 where
  pub id : String
  pub name : String
  pub status : String
  pub severity : Severity
  pub connectors : ℕ
  pub connections : ℕ
  pub colos : List String
  pub versions : List String
  pub ingress_count : ℕ
  pub probes : Probes
  pub findings : List Finding
  pub uptime_24h : WebUptime
  pub beats : List Heartbeat
  pub last_seen : Time
  pub connected_for : String

-- buildCard
unfoldable pub build_card : Tables → Snapshot → Tunnel → TunnelCard
build_card db snap t =
    let visible = card_findings db snap t in
    record {
      id = t.id;
      name = t.name;
      status = t.status;
      severity = worst_severity visible;
      connectors = length (connectors_at snap t.id);
      connections = length (connections_at snap t.id);
      colos = colos_of (connections_at snap t.id);
      versions = versions_of (connectors_at snap t.id);
      ingress_count = count_hostnames (ingress_at snap t.id);
      probes = probe_summary snap.probes (ingress_at snap t.id);
      findings = visible;
      uptime_24h = to_web_uptime "24 hours" day (uptime_for db.history t.id day snap.now);
      beats = heartbeats db t.id snap.now;
      last_seen = t.last_seen;
      connected_for = format_duration t.conns_active_at snap.now;
    }

-- Totals of internal/web/viewmodels.go
pub record Totals : Type 0 where
  pub tunnels : ℕ
  pub healthy : ℕ
  pub connectors : ℕ
  pub connections : ℕ
  pub hostnames : ℕ
  pub findings : ℕ
  pub unprotected : ℕ

-- what one tunnel adds to the totals
unfoldable pub add_card : TunnelCard → Totals → Totals
add_card card d = record d {
  tunnels = suc d.tunnels;
  healthy = if card.status == "healthy" then suc d.healthy else d.healthy;
  connectors = d.connectors + card.connectors;
  connections = d.connections + card.connections;
  hostnames = d.hostnames + card.ingress_count;
  findings = d.findings + length card.findings;
}

unfoldable pub add_cards : List TunnelCard → Totals → Totals
add_cards [] d = d
add_cards (card ∷ cards) d = add_cards cards (add_card card d)

-- Dashboard: the cards and the totals
unfoldable pub dashboard : Tables → Snapshot → List TunnelCard × Totals
dashboard db snap =
    let cards = map (build_card db snap) snap.tunnels in
    let totals = add_cards cards (record {
      tunnels = 0;
      healthy = 0;
      connectors = 0;
      connections = 0;
      hostnames = 0;
      findings = 0;
      unprotected = 0;
    }) in
    (cards, record totals { unprotected = length (unprotected snap).0 })

-- Event of internal/web/viewmodels.go
pub record WebEvent : Type 0 where
  pub row : Event
  pub kind_label : String
  pub tunnel_name : String
  pub severity : Severity

-- toWebEvent
unfoldable pub to_web_event : (String → String) → Event → WebEvent
to_web_event names e = record {
  row = e;
  kind_label = event_label e.kind;
  tunnel_name = names e.tunnel_id;
  severity = event_severity e;
}

-- Events
unfoldable pub events_page : Tables → ℕ → List WebEvent
events_page db limit = map (to_web_event (tunnel_names (all_tunnels db))) (latest_events db limit)

-- the events of the page of a tunnel, at most so many
unfoldable pub tunnel_page_events : (String → String) → String → ℕ → List Event → List WebEvent
tunnel_page_events names id zero events = []
tunnel_page_events names id (suc room) [] = []
tunnel_page_events names id (suc room) (e ∷ events) =
    let rest = tunnel_page_events names id (suc room) events in
    let fewer = tunnel_page_events names id room events in
    if not (e.tunnel_id == id) then rest else to_web_event names e ∷ fewer

-- the Connector of a tunnel's page
pub record WebConnector : Type 0 where
  pub row : Connector
  pub short_id : String
  pub outdated : Bool

unfoldable pub web_connector : String → Connector → WebConnector
web_connector release c = record {
  row = c;
  short_id = short_id c.id;
  outdated = not (release == "") && not (c.version == "") && not (c.version == release);
}

-- uptimeWindows
abbrev pub uptime_windows : List (String × Duration)
uptime_windows = ("24 hours", day) ∷ ("7 days", 7 * day) ∷ ("30 days", 30 * day) ∷ []

unfoldable pub page_uptimes : Tables → String → Time → List WebUptime
page_uptimes db id now =
    map (λ w. to_web_uptime w.0 w.1 (uptime_for db.history id w.1 now)) uptime_windows

abbrev first_version : List IngressRule → ℕ
first_version [] = 0
first_version (r ∷ rules) = r.config_version

-- TunnelDetail of internal/web/viewmodels.go, with the row of the tunnel for the fields copied from it
pub record TunnelDetail : Type 0 where
  pub tunnel : Tunnel
  pub card : TunnelCard
  pub muted : List Ignored
  pub connectors : List WebConnector
  pub connections : List Connection
  pub ingress : List WebIngress
  pub quality : Outcome
  pub origins : Origins
  pub config_version : ℕ
  pub uptimes : List WebUptime
  pub events : List WebEvent

-- what tunnelDetail reads beside the tables and the snapshot: the muted findings, the probe interval,
-- and for request origins the setting, the rows, RequestOriginsAt and OriginWindow
pub record Settings : Type 0 where
  pub muted : List Ignored
  pub probe_interval : Duration
  pub origins_enabled : Bool
  pub origins : List RequestOrigin
  pub origins_at : Time
  pub origin_window : Duration

unfoldable pub find_tunnel : List Tunnel → String → Option Tunnel
find_tunnel [] id = none
find_tunnel (t ∷ tunnels) id =
    let rest = find_tunnel tunnels id in if t.id == id then some t else rest

unfoldable pub detail_of : Settings → Tables → Snapshot → String → Tunnel → TunnelDetail
detail_of cfg db snap hostname t =
    let names = tunnel_names snap.tunnels in
    let rules = ingress_at snap t.id in
    record {
      tunnel = t;
      card = build_card db snap t;
      muted = muted_for cfg.muted t.id;
      connectors = map (web_connector snap.latest_release) (connectors_at snap t.id);
      connections = connections_at snap t.id;
      ingress = to_web_ingress snap rules names;
      quality = tunnel_quality db rules hostname snap.now cfg.probe_interval;
      origins =
          (origin_summary cfg.origins_enabled cfg.origins (some (hostname_set rules)) cfg.origins_at
            cfg.origin_window).0;
      config_version = first_version rules;
      uptimes = page_uptimes db t.id snap.now;
      events = tunnel_page_events names t.id 25 (latest_events db 200);
    }

-- the answers of tunnelDetail: no such tunnel, a hostname that the quality card refuses, or the page
pub data Answer : Type 0 where
  missing : Answer
  rejected : Answer
  page : TunnelDetail → Answer

abbrev accept : TunnelDetail → Outcome → Answer
accept d Outcome.refused = Answer.rejected
accept d _ = Answer.page d

abbrev answer_for : Settings → Tables → Snapshot → String → Option Tunnel → Answer
answer_for cfg db snap hostname none = Answer.missing
answer_for cfg db snap hostname (some t) =
    let d = detail_of cfg db snap hostname t in accept d d.quality

-- tunnelDetail
unfoldable pub tunnel_detail : Settings → Tables → Snapshot → String → String → Answer
tunnel_detail cfg db snap id hostname =
    answer_for cfg db snap hostname (find_tunnel snap.tunnels id)
