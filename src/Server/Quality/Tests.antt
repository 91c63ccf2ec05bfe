-- ===== src/Server/Quality/Tests.antt =====
-- Runs of the quality card.
use cftm.Base.{String, ℕ, true, ◌≡◌, refl, ◌*◌, ◌+◌, some, List, [], ◌∷◌}
use cftm.Model.{IngressRule, ProbeResult}
use cftm.Model.Clock.{Time, second, day}
use cftm.Store.Tables.{Tables}
use cftm.Server.Quality.{build_quality, tunnel_quality, median_twice}
use cftm.Server.Quality.Totals.{IsConsistent, build_quality-IsConsistent}
use cftm.Server.Quality.Percentiles.{IsOrdered, build_quality-IsOrdered}
use cftm.Server.Quality.Choice.{IsAllowed, tunnel_quality-IsAllowed}

abbrev probed : Time → String → ℕ → ProbeResult
probed at class ms = record {
  hostname = "www.example.com";
  checked_at = at;
  status_code = 200;
  class = class;
  latency_ms = ms;
  error = "";
}

-- three answers with a failure between the last two, and one before the window
abbrev history : List ProbeResult
history =
    probed (9 * second) "ok" 70
    ∷ probed (20 * second) "ok" 40
    ∷ probed (320 * second) "ok" 60
    ∷ probed (620 * second) "tunnel_down" 0
    ∷ probed (920 * second) "ok" 50
    ∷ []

middle : median_twice (50 ∷ 60 ∷ 40 ∷ []) ≡ some 100
unfolding median_twice cftm.Base.sort_by cftm.Base.insert_by
middle = refl

build_quality-IsConsistent_example :
    IsConsistent
      (build_quality "www.example.com"
        (10 * second)
        (10 * second + day)
        (300 * second)
        history).counts
build_quality-IsConsistent_example =
    build_quality-IsConsistent "www.example.com" (10 * second) (10 * second + day) (300 * second)
      history

build_quality-IsOrdered_example :
    IsOrdered
      (build_quality "www.example.com"
        (10 * second)
        (10 * second + day)
        (300 * second)
        history).median
      (build_quality "www.example.com" (10 * second) (10 * second + day) (300 * second) history).p95
build_quality-IsOrdered_example =
    build_quality-IsOrdered "www.example.com" (10 * second) (10 * second + day) (300 * second)
      history

abbrev tables : Tables
tables = record {
  tunnels = [];
  history = [];
  connectors = [];
  connections = [];
  ingress = [];
  events = [];
  probe_results = history;
  poll_runs = [];
}

abbrev rule : IngressRule
rule = record {
  tunnel_id = "t1";
  index = 0;
  hostname = "www.example.com";
  path = "";
  service = "http://127.0.0.1:80";
  origin_request = "";
  config_version = 1;
  seen_at = 0;
}

tunnel_quality-IsAllowed_example :
    IsAllowed tables
      (rule ∷ [])
      "www.example.com"
      (day + 900 * second)
      (300 * second)
      (tunnel_quality tables (rule ∷ []) "www.example.com" (day + 900 * second) (300 * second))
tunnel_quality-IsAllowed_example =
    tunnel_quality-IsAllowed tables (rule ∷ []) "www.example.com" (day + 900 * second)
      (300 * second)
