-- ===== src/Server/Page/Tests.antt =====
-- Runs of the page data.
use cftm.Base.{true, false, ◌≡◌, ◌*◌, [], ◌∷◌, exists_by}
use cftm.Model.{Tunnel, IngressRule}
use cftm.Model.Clock.{second}
use cftm.Model.Status
use cftm.Finding.Code
use cftm.Health.Coverage.{is_for}
use cftm.Store.Tables.{Tables, empty}
use cftm.Audit.Access.{State}
use cftm.Server.Page.{Snapshot, load_snapshot, findings_for, unprotected}
use cftm.Server.Page.Unprotected.{of_tunnel, gap_iff_listed}

abbrev tunnel : Tunnel
tunnel = record {
  id = "t1";
  name = "home";
  tun_type = "cfd_tunnel";
  config_src = "cloudflare";
  remote_config = true;
  status = Status.healthy;
  created_at = 0;
  conns_active_at = 0;
  conns_inactive_at = 0;
  first_seen = 0;
  last_seen = 0;
}

abbrev www : IngressRule
www = record {
  tunnel_id = "t1";
  index = 0;
  hostname = "www.example.com";
  path = "";
  service = "http://127.0.0.1:80";
  origin_request = "";
  config_version = 1;
  seen_at = 0;
}

abbrev tables : Tables
tables = record empty { tunnels = tunnel ∷ []; ingress = www ∷ [] }

abbrev audited : State
audited = record {
  inventory = record { apps = []; tokens = [] };
  audited_at = 100 * second;
  alerts = record { readable = false; covered = [] };
  capabilities = [];
}

abbrev snapshot : Snapshot
snapshot = load_snapshot tables audited [] "" (λ h. false) (200 * second)

gap_iff_listed_example :
    exists_by
      (is_for Code.access_unprotected "www.example.com")
      (findings_for tables snapshot tunnel)
    ≡ exists_by (of_tunnel tunnel.id "www.example.com") (unprotected snapshot).0
gap_iff_listed_example = gap_iff_listed tables snapshot tunnel "www.example.com"
