-- ===== src/Collector/Logins/Tests.antt =====
-- A round over two applications, one of them with a path.
use cftm.Base.{String, Bool, refl, true, [], ◌∷◌, ◌*◌, List, false}
use cftm.Model.Clock.{second}
use cftm.Audit.Logins.{AccessRequest, AccessLogin}
use cftm.Collector.Capabilities.{answered}
use cftm.Collector.Logins.{State, World, collect_access_logins}
use cftm.Collector.Logins.Round.{IsRound, collect_access_logins-IsRound}

abbrev request : String → Bool → String → AccessRequest
request app_domain allowed email = record {
  app_domain = app_domain;
  allowed = allowed;
  user_email = email;
  created_at = 9;
}

abbrev requests : List AccessRequest
requests =
    request "Wiki.example.com/docs" true "a@example.com"
    ∷ request "wiki.example.com" false ""
    ∷ request "wiki.example.com" true "A@example.com"
    ∷ request "blog.example.com" true ""
    ∷ []

abbrev old : AccessLogin
old = record {
  app_domain = "wiki.example.com";
  allowed = 7;
  denied = 0;
  users = 1;
  last_at = 5 * second;
}

abbrev before : State
before = record { rows = old ∷ []; capabilities = []; collected_at = 5 * second }

abbrev world : World
world = record { requests = answered requests; saves = true; saves_timestamp = true }

collect_access_logins-IsRound_example :
    IsRound world before
      (9 * second)
      true
      "wiki.example.com"
      (collect_access_logins world before (9 * second))
collect_access_logins-IsRound_example =
    collect_access_logins-IsRound world before (9 * second) true "wiki.example.com" refl
