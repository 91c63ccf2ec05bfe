-- ===== src/Collector/Poll/Tests.antt =====
-- One tunnel whose configuration cannot be fetched.
use cftm.Base.{String, ◌≡◌, ◌++◌, refl, true, [], ◌∷◌, map, ◌*◌}
use cftm.Model.Clock.{second}
use cftm.Store.Tables.{empty}
use cftm.Store.Tunnels.{save_tunnels, history_row}
use cftm.Store.Tunnels.Saved.{status_in}
use cftm.Collector.Api.{World, failed, answered, ApiTunnel, ApiConnector, to_store_tunnel}
use cftm.Collector.Poll.{poll}
use cftm.Collector.Poll.Statuses.{poll-statuses}

abbrev tunnel : ApiTunnel
tunnel = record {
  id = "t1";
  name = "home";
  tun_type = "cfd_tunnel";
  config_src = "cloudflare";
  remote_config = true;
  status = "healthy";
  created_at = 0;
  conns_active_at = 0;
  conns_inactive_at = 0;
  connections = [];
}

abbrev connector : ApiConnector
connector = record {
  id = "c1";
  arch = "linux_amd64";
  config_version = 1;
  features = [];
  run_at = 0;
  version = "2025.1.0";
}

abbrev pub world : World
world = record {
  tunnels = answered (tunnel ∷ []);
  connectors = λ id. answered (connector ∷ []);
  configuration = λ id. failed "timeout";
  saves_tunnels = true;
  saves_connectors = λ id. true;
  saves_connections = λ id. true;
  reads_ingress = λ id. true;
  saves_ingress = λ id. true;
  adds_events = true;
  adds_run = true;
  prunes = true;
}

poll-statuses_example :
    ((id : String)
      → status_in (poll world 10 0 empty (9 * second)).db.tunnels id
        ≡ status_in (map to_store_tunnel (tunnel ∷ [])) id)
    × ((poll world 10 0 empty (9 * second)).db.history
        ≡ []
          ++ map history_row
              (save_tunnels empty (map to_store_tunnel (tunnel ∷ [])) (9 * second)).0.changes)
poll-statuses_example = poll-statuses world 10 0 empty (9 * second) (tunnel ∷ []) refl refl
