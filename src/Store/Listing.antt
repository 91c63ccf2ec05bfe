-- ===== src/Store/Listing.antt =====
-- Tunnels, and Connectors, Connections and Ingress of all tunnels (internal/store/queries.go).
use cftm.Base.{String, Bool, ◌==◌, leb, List, order_by, text_le, if◌then◌else◌}
use cftm.Model.{Tunnel, Connector, Connection, IngressRule}
use cftm.Store.Tables.{Tables}

-- ORDER BY a, then by the test
abbrev pub then_by : String → String → Bool → Bool
then_by a b rest = if a == b then rest else text_le a b

-- Tunnels
unfoldable pub all_tunnels : Tables → List Tunnel
all_tunnels db = order_by (λ a b. text_le a.name b.name) db.tunnels

-- Connectors
unfoldable pub all_connectors : Tables → List Connector
all_connectors db =
    order_by (λ a b. then_by a.tunnel_id b.tunnel_id (text_le a.id b.id)) db.connectors

-- Connections
unfoldable pub all_connections : Tables → List Connection
all_connections db =
    order_by
      (λ a b.
        then_by a.tunnel_id b.tunnel_id (then_by a.colo_name b.colo_name (text_le a.uuid b.uuid)))
      db.connections

-- Ingress
unfoldable pub all_ingress : Tables → List IngressRule
all_ingress db = order_by (λ a b. then_by a.tunnel_id b.tunnel_id (leb a.index b.index)) db.ingress
