-- ===== src/Store/Connectors/Tests.antt =====
-- One connector stays, one is replaced by another.
use cftm.Base.{String, ◌≡◌, ◌&&◌, not, [], ◌∷◌, List}
use cftm.Model.{Connector}
use cftm.Store.Connectors.{connector_diff}
use cftm.Store.Connectors.Diff.{has_id, connector_diff_iff}

abbrev connector : String → Connector
connector id = record {
  id = id;
  tunnel_id = "t1";
  version = "2025.1.0";
  arch = "linux_amd64";
  config_version = 1;
  features = [];
  run_at = 0;
  last_seen = 0;
}

abbrev stored : List Connector
stored = connector "c1" ∷ connector "c2" ∷ []

abbrev listed : List Connector
listed = connector "c2" ∷ connector "c3" ∷ []

connector_diff_iff_example :
    (has_id "c3" (connector_diff stored listed).added
      ≡ (not (has_id "c3" stored) && has_id "c3" listed))
    × (has_id "c3" (connector_diff stored listed).removed
        ≡ (not (has_id "c3" listed) && has_id "c3" stored))
connector_diff_iff_example = connector_diff_iff "c3" stored listed
