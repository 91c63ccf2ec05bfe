-- ===== src/Model.antt =====
-- internal/store/models.go: the records that the store, the collector and the server exchange, and
-- the constants they are tagged with. An int that counts or numbers is a natural number.
pub mod Kind
pub mod Status
pub mod Clock
use cftm.Base.{ℕ, String, Bool, List}
use Clock.{Time, Duration}

pub record Tunnel : Type 0 where
  pub id : String
  pub name : String
  pub tun_type : String
  pub config_src : String
  pub remote_config : Bool
  pub status : String
  pub created_at : Time
  pub conns_active_at : Time
  pub conns_inactive_at : Time
  pub first_seen : Time
  pub last_seen : Time

pub record Connector : Type 0 where
  pub id : String
  pub tunnel_id : String
  pub version : String
  pub arch : String
  pub config_version : ℕ
  pub features : List String
  pub run_at : Time
  pub last_seen : Time

pub record Connection : Type 0 where
  pub uuid : String
  pub connector_id : String
  pub tunnel_id : String
  pub colo_name : String
  pub origin_ip : String
  pub opened_at : Time
  pub last_seen : Time

pub record IngressRule : Type 0 where
  pub tunnel_id : String
  pub index : ℕ
  pub hostname : String
  pub path : String
  pub service : String
  pub origin_request : String
  pub config_version : ℕ
  pub seen_at : Time

pub record AccessApp : Type 0 where
  pub id : String
  pub name : String
  pub domains : List String
  pub raw_domains : List String
  pub app_type : String
  pub has_bypass : Bool
  pub has_token : Bool
  pub bypass_policies : List String
  pub policy_count : ℕ
  pub last_seen : Time

pub record ServiceToken : Type 0 where
  pub id : String
  pub name : String
  pub client_id : String
  pub expires_at : Time
  pub last_seen : Time

pub record StatusChange : Type 0 where
  pub tunnel_id : String
  pub from_status : String
  pub status : String
  pub changed_at : Time

pub record Event : Type 0 where
  pub id : ℕ
  pub timestamp : Time
  pub kind : String
  pub tunnel_id : String
  pub hostname : String
  pub from_state : String
  pub to_state : String
  pub message : String

pub record ProbeResult : Type 0 where
  pub hostname : String
  pub checked_at : Time
  pub status_code : ℕ
  pub class : String
  pub latency_ms : ℕ
  pub error : String

pub record TunnelDiff : Type 0 where
  pub changes : List StatusChange
  pub added : List Tunnel
  pub removed : List Tunnel

pub record ConnectorChange : Type 0 where
  pub id : String
  pub from_version : String
  pub to_version : String
  pub from_config_version : ℕ
  pub to_config_version : ℕ

pub record ConnectorDiff : Type 0 where
  pub added : List Connector
  pub removed : List Connector
  pub changed : List ConnectorChange

-- The ratio of the source is healthy / window, and it is kept as its two parts.
pub record Uptime : Type 0 where
  pub window : Duration
  pub healthy : Duration
  pub changes : ℕ
  pub observed : Bool
