-- ===== src/Event/Tests.antt =====
-- Two polls between which one tunnel appears and another one fails.
use cftm.Base.{String, ◌≡◌, true, [], ◌∷◌, exists_by}
use cftm.Model.{Tunnel, TunnelDiff, StatusChange}
use cftm.Model.Kind
use cftm.Event.{tunnel_events}
use cftm.Event.Laws.{is_of, status_event_iff}

abbrev fresh : Tunnel
fresh = record {
  id = "t2";
  name = "lab";
  tun_type = "cfd_tunnel";
  config_src = "cloudflare";
  remote_config = true;
  status = "inactive";
  created_at = 0;
  conns_active_at = 0;
  conns_inactive_at = 0;
  first_seen = 9;
  last_seen = 9;
}

abbrev change : String → StatusChange
change id = record { tunnel_id = id; from_status = "healthy"; status = "down"; changed_at = 9 }

abbrev diff : TunnelDiff
diff = record { added = fresh ∷ []; removed = []; changes = change "t1" ∷ change "t2" ∷ [] }

status_event_iff_example : exists_by (is_of Kind.tunnel_status "t1") (tunnel_events diff 9) ≡ true
unfolding exists_by
status_event_iff_example = status_event_iff diff 9 "t1"
