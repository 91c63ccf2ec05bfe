-- ===== src/Store/Ingress/Tests.antt =====
-- Two rules take the place of one.
use cftm.Base.{String, Bool, ◌≡◌, refl, false, some, List, [], ◌∷◌, ◌*◌, map, ℕ, arith}
use cftm.Model.{IngressRule}
use cftm.Model.Clock.{second}
use cftm.Store.Tables.{Tables, empty}
use cftm.Store.Ingress.{ingress_of, ingress_changed, ingress_row, replace_ingress}
use cftm.Store.Ingress.Replace.{replace_ingress-read}

abbrev rule : ℕ → String → IngressRule
rule index hostname = record {
  tunnel_id = "t1";
  index = index;
  hostname = hostname;
  path = "";
  service = "http://10.0.0.1";
  origin_request = "";
  config_version = 2;
  seen_at = 0;
}

abbrev before : Tables
before = record empty { ingress = rule 0 "old.example.com" ∷ [] }

abbrev rules : List IngressRule
rules = rule 0 "a.example.com" ∷ rule 1 "b.example.com" ∷ []

replace_ingress-read_example :
    (done : Bool × Tables) × (replace_ingress before "t1" rules (9 * second) ≡ some done)
    × (ingress_of done.1 "t1" ≡ map (ingress_row "t1" (9 * second)) rules)
    × (ingress_changed (ingress_of done.1 "t1") rules ≡ false)
replace_ingress-read_example =
    replace_ingress-read before "t1" rules (9 * second) refl (omega arith, (omega arith, tt))
