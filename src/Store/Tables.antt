-- ===== src/Store/Tables.antt =====
-- The tables of internal/store that a collection cycle writes. A row is kept as it is read back: its
-- times have gone through toUnix and fromUnix. A transaction whose statements all succeed replaces
-- the tables; one that fails leaves them as they were (withTx of internal/store/store.go).
use cftm.Base.{ℕ, String, Bool, List, []}
use cftm.Model.{Tunnel, Connector, Connection, IngressRule, Event, ProbeResult}
use cftm.Model.Clock.{Time, to_unix, from_unix}
use cftm.Store.History.{HistoryRow}

pub record PollRun : Type 0 where
  pub started_at : Time
  pub duration_ms : ℕ
  pub succeeded : Bool
  pub error : String

pub record Tables : Type 0 where
  pub tunnels : List Tunnel
  pub history : List HistoryRow
  pub connectors : List Connector
  pub connections : List Connection
  pub ingress : List IngressRule
  pub events : List Event
  pub probe_results : List ProbeResult
  pub poll_runs : List PollRun

abbrev pub empty : Tables
empty = record {
  tunnels = [];
  history = [];
  connectors = [];
  connections = [];
  ingress = [];
  events = [];
  probe_results = [];
  poll_runs = [];
}

-- a time as it is read back
unfoldable pub stamp : Time → Time
stamp t = from_unix (to_unix t)
