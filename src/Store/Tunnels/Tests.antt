-- ===== src/Store/Tunnels/Tests.antt =====
-- A tunnel goes down, a second one appears and a third one is gone.
use cftm.Base.{true, String, ◌≡◌, refl, some, List, [], ◌∷◌, ◌*◌}
use mathlib.Core.List.Memᴰ.{head, tail}
use cftm.Model.{Tunnel}
use cftm.Model.Clock.{Time, second}
use cftm.Store.Tables.{Tables, empty}
use cftm.Store.Tunnels.{save_tunnels}
use cftm.Store.Tunnels.Saved.{status_in, save_tunnels-status}
use cftm.Store.Tunnels.Repeat.{Settled, no_change, save_tunnels-again}

abbrev tunnel : String → String → Tunnel
tunnel id status = record {
  id = id;
  name = id;
  tun_type = "cfd_tunnel";
  config_src = "cloudflare";
  remote_config = true;
  status = status;
  created_at = 0;
  conns_active_at = 0;
  conns_inactive_at = 0;
  first_seen = 0;
  last_seen = 0;
}

abbrev before : Tables
before = record empty { tunnels = tunnel "t1" "healthy" ∷ tunnel "t3" "healthy" ∷ [] }

abbrev snapshot : List Tunnel
snapshot = tunnel "t1" "down" ∷ tunnel "t2" "healthy" ∷ []

abbrev at : Time
at = 1000 * second

save_tunnels-status_example :
    status_in (save_tunnels before snapshot at).1.tunnels "t1" ≡ some "down"
unfolding status_in
save_tunnels-status_example = save_tunnels-status before snapshot at "t1"

settled : Settled snapshot snapshot
unfolding status_in
settled t (head e) = rw e refl
settled t (tail (head e)) = rw e refl
settled t (tail (tail m)) = elim m [ ]

save_tunnels-again_example :
    (save_tunnels (save_tunnels before snapshot at).1 snapshot (2 * at)).0 ≡ no_change
save_tunnels-again_example = save_tunnels-again before snapshot at (2 * at) settled
