-- ===== src/Collector/Api.antt =====
-- What a collection cycle gets from outside: the answers of the Cloudflare API (the types of
-- internal/cloudflare/types.go, as far as the cycle reads them) and whether the statements on the
-- database succeed. An ingress rule's origin settings are given by their JSON text.
use cftm.Base.{ℕ, suc, String, Bool, ◌==◌, Option, none, some, List, [], ◌∷◌, map, if◌then◌else◌}
use cftm.Model.{Tunnel, Connector, Connection, IngressRule}
use cftm.Model.Clock.{Time, zero_time}

pub data Answer {ℓ} (A : Type ℓ) : Type ℓ where
  failed : String → Answer A
  answered : A → Answer A

pub record ApiConnection : Type 0 where
  pub id : String
  pub client_id : String
  pub client_version : String
  pub colo_name : String
  pub opened_at : Time
  pub origin_ip : String
  pub uuid : String

pub record ApiTunnel : Type 0 where
  pub id : String
  pub name : String
  pub tun_type : String
  pub config_src : String
  pub remote_config : Bool
  pub status : String
  pub created_at : Time
  pub conns_active_at : Time
  pub conns_inactive_at : Time
  pub connections : List ApiConnection

pub record ApiConnector : Type 0 where
  pub id : String
  pub arch : String
  pub config_version : ℕ
  pub features : List String
  pub run_at : Time
  pub version : String

pub record ApiRule : Type 0 where
  pub hostname : String
  pub path : String
  pub service : String
  pub origin_request : Option String

pub record ApiConfiguration : Type 0 where
  pub version : ℕ
  pub ingress : List ApiRule

pub record World : Type 0 where
  pub tunnels : Answer (List ApiTunnel)
  pub connectors : String → Answer (List ApiConnector)
  pub configuration : String → Answer ApiConfiguration
  -- whether SaveTunnels, ReplaceConnectors, ReplaceConnections, Ingress, ReplaceIngress, AddEvents,
  -- AddPollRun and Prune get through to the database
  pub saves_tunnels : Bool
  pub saves_connectors : String → Bool
  pub saves_connections : String → Bool
  pub reads_ingress : String → Bool
  pub saves_ingress : String → Bool
  pub adds_events : Bool
  pub adds_run : Bool
  pub prunes : Bool

-- toStoreTunnel
abbrev pub to_store_tunnel : ApiTunnel → Tunnel
to_store_tunnel t = record {
  id = t.id;
  name = t.name;
  tun_type = t.tun_type;
  config_src = t.config_src;
  remote_config = t.remote_config;
  status = t.status;
  created_at = t.created_at;
  conns_active_at = t.conns_active_at;
  conns_inactive_at = t.conns_inactive_at;
  first_seen = zero_time;
  last_seen = zero_time;
}

abbrev pub to_store_connection : String → ApiConnection → Connection
to_store_connection tunnel_id c = record {
  uuid = if c.uuid == "" then c.id else c.uuid;
  connector_id = c.client_id;
  tunnel_id = tunnel_id;
  colo_name = c.colo_name;
  origin_ip = c.origin_ip;
  opened_at = c.opened_at;
  last_seen = zero_time;
}

-- toStoreConnections
abbrev pub to_store_connections : ApiTunnel → List Connection
to_store_connections t = map (to_store_connection t.id) t.connections

-- the loop over the connectors in syncTunnel
abbrev pub to_store_connector : String → ApiConnector → Connector
to_store_connector tunnel_id c = record {
  id = c.id;
  tunnel_id = tunnel_id;
  version = c.version;
  arch = c.arch;
  config_version = c.config_version;
  features = c.features;
  run_at = c.run_at;
  last_seen = zero_time;
}

abbrev pub encoded : Option String → String
encoded none = ""
encoded (some text) = text

-- the loop over the rules in syncConfiguration, from a place on
unfoldable pub to_store_rules : String → ℕ → ℕ → List ApiRule → List IngressRule
to_store_rules tunnel_id version i [] = []
to_store_rules tunnel_id version i (r ∷ rs) =
    record {
      tunnel_id = tunnel_id;
      index = i;
      hostname = r.hostname;
      path = r.path;
      service = r.service;
      origin_request = encoded r.origin_request;
      config_version = version;
      seen_at = zero_time;
    }
    ∷ to_store_rules tunnel_id version (suc i) rs
