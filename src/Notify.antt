-- ===== src/Notify.antt =====
-- internal/notify: which events are worth telling someone about, the dispatcher that suppresses
-- repeats, and the outbox table of internal/store/notifications.go. A map from tunnel ids to names
-- is a function, with the empty text at a missing key.
pub mod Cooldown
pub mod Key
pub mod Delivery
mod Tests
use cftm.Base.{
  ℕ, String, Bool, true, false, not, ◌&&◌, ◌||◌, Option, none, some, List, [], ◌∷◌, ◌++◌, ◌==◌, ltb,
  leb, nat_eq, if◌then◌else◌, exists_by, length,
}
use cftm.Base.Text.{◌<>◌, join}
use cftm.Model.{Event}
use cftm.Model.Clock.{Time, Duration, ago, hour, to_unix}
use cftm.Model.Kind
use cftm.Severity.{Severity, warning, rank}
use cftm.Event.{event_severity, event_label}

pub record Notification : Type 0 where
  pub key : String
  pub timestamp : Time
  pub severity : Severity
  pub kind : String
  pub title : String
  pub body : String
  pub tunnel_id : String
  pub tunnel_name : String
  pub hostname : String

-- dedupKey
unfoldable pub dedup_key : Event → String
dedup_key e = join (e.kind ∷ e.tunnel_id ∷ e.hostname ∷ e.to_state ∷ []) "|"

-- title
unfoldable pub title : Event → String → String
title e tunnel_name =
    let host_or_cftm = if e.hostname == "" then "CFTM" else e.hostname in
    let subject = if tunnel_name == "" then host_or_cftm else tunnel_name in
    if e.kind == Kind.tunnel_status
    then subject <> " is " <> e.to_state
    else if e.kind == Kind.tunnel_removed
    then "Tunnel " <> subject <> " disappeared"
    else if e.kind == Kind.connector_removed
    then subject <> " lost a connector"
    else if e.kind == Kind.probe
    then subject <> " probe: " <> e.to_state
    else if e.kind == Kind.poll_failed
    then "Cloudflare poll failed"
    else if e.kind == Kind.version_drift
    then subject <> " runs an outdated cloudflared"
    else if e.kind == Kind.service_token_aging
    then "An Access service token is expiring"
    else if e.kind == Kind.access_coverage
    then subject <> " is publicly reachable"
    else subject <> ": " <> event_label e.kind

-- the kinds that FromEvent drops
abbrev pub is_routine : String → Bool
is_routine kind =
    kind == Kind.config_changed || kind == Kind.connector_added || kind == Kind.tunnel_added

abbrev pub notification_of : Event → String → Notification
notification_of e tunnel_name = record {
  key = dedup_key e;
  timestamp = e.timestamp;
  severity = event_severity e;
  kind = e.kind;
  title = title e tunnel_name;
  body = e.message;
  tunnel_id = e.tunnel_id;
  tunnel_name = tunnel_name;
  hostname = e.hostname;
}

-- FromEvent
unfoldable pub from_event : Event → String → Option Notification
from_event e tunnel_name = if is_routine e.kind then none else some (notification_of e tunnel_name)

-- a row of the outbox; `created_at` is in seconds, as it is stored
pub record Row : Type 0 where
  pub key : String
  pub created_at : ℕ
  pub severity : Severity
  pub kind : String
  pub tunnel_id : String
  pub hostname : String
  pub title : String
  pub body : String
  pub transport : String
  pub status : String
  pub error : String

abbrev pub Outbox : Type 0
Outbox = List Row

-- Store.NotifiedSince
unfoldable pub notified_since : Outbox → String → Time → Bool
notified_since outbox key since =
    exists_by (λ r. r.key == key && leb (to_unix since) r.created_at) outbox

pub record Config : Type 0 where
  pub enabled : Bool
  pub min_severity : Severity
  pub cooldown : Duration

-- the defaults that New puts in
unfoldable pub new_config : Config → Config
new_config cfg = record {
  enabled = cfg.enabled;
  min_severity = if cfg.min_severity == "" then warning else cfg.min_severity;
  cooldown = if leb cfg.cooldown 0 then hour else cfg.cooldown;
}

-- What the outside answers while one event is dispatched: whether the two statements on the
-- database fail, and the error of Notifier.Send, if it fails.
pub record Answers : Type 0 where
  pub query_fails : Bool
  pub insert_fails : Bool
  pub send_error : Option String

abbrev status_of : Option String → String
status_of none = "sent"
status_of (some err) = "failed"

abbrev error_of : Option String → String
error_of none = ""
error_of (some err) = err

-- the record of Dispatcher.deliver, as AddNotification stores it
row_of : String → Notification → Option String → Row
row_of transport n sent = record {
  key = n.key;
  created_at = to_unix n.timestamp;
  severity = n.severity;
  kind = n.kind;
  tunnel_id = n.tunnel_id;
  hostname = n.hostname;
  title = n.title;
  body = n.body;
  transport = transport;
  status = status_of sent;
  error = error_of sent;
}

-- Dispatcher.deliver; the newest row stands first in the outbox
deliver : String → Answers → Outbox → Notification → Outbox
unfolding row_of
deliver transport a outbox n =
    if a.insert_fails then outbox else row_of transport n a.send_error ∷ outbox

-- urgentEnough
unfoldable pub urgent_enough : Config → Notification → Bool
urgent_enough cfg n = leb (rank cfg.min_severity) (rank n.severity)

-- the body of the loop of Dispatch, below FromEvent
consider : Config → String → Answers → Outbox → Option Notification → Outbox
consider cfg transport a outbox none = outbox
consider cfg transport a outbox (some n) =
    if not (urgent_enough cfg n)
    then outbox
    else if a.query_fails
    then outbox
    else if notified_since outbox n.key (ago n.timestamp cfg.cooldown)
    then outbox
    else deliver transport a outbox n

-- one round of the loop of Dispatch
unfoldable pub dispatch_one :
    Config → String → (String → String) → Outbox → Event → Answers → Outbox
unfolding consider deliver
dispatch_one cfg transport names outbox e a =
    consider cfg transport a outbox (from_event e (names e.tunnel_id))

dispatch_all : Config → String → (String → String) → Outbox → List (Event × Answers) → Outbox
dispatch_all cfg transport names outbox [] = outbox
dispatch_all cfg transport names outbox ((e, a) ∷ rest) =
    dispatch_all cfg transport names (dispatch_one cfg transport names outbox e a) rest

-- Dispatcher.Dispatch, over the events of a batch with what the outside answers for each
unfoldable pub dispatch :
    Config → String → (String → String) → Outbox → List (Event × Answers) → Outbox
unfolding dispatch_all dispatch_one
dispatch cfg transport names outbox batch =
    if not cfg.enabled || nat_eq (length batch) 0
    then outbox
    else dispatch_all cfg transport names outbox batch
