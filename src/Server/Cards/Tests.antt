-- ===== src/Server/Cards/Tests.antt =====
-- The page of a tunnel without rows, and one event of another tunnel.
use cftm.Base.{String, ◌≡◌, refl, [], ◌∷◌, map}
use cftm.Model.{Event}
use cftm.Server.Cards.{tunnel_page_events, to_web_event}

abbrev event_of : String → Event
event_of id = record {
  id = 0;
  timestamp = 9;
  kind = "status_change";
  tunnel_id = id;
  hostname = "";
  from_state = "healthy";
  to_state = "down";
  message = "";
}

abbrev named : String → String
named id = id

page_has_newest :
    tunnel_page_events named "t1" 2
      (event_of "t1" ∷ event_of "t2" ∷ event_of "t1" ∷ event_of "t1" ∷ [])
    ≡ map (to_web_event named) (event_of "t1" ∷ event_of "t1" ∷ [])
unfolding tunnel_page_events
page_has_newest = refl
