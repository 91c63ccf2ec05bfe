-- ===== src/Store/Ingress.antt =====
-- ReplaceIngress, ingressChanged and Ingress of internal/store/queries.go.
pub mod Changed
mod Replace
mod Tests
use cftm.Base.{
  ℕ, String, Bool, true, false, not, ◌||◌, ◌&&◌, ◌==◌, nat_eq, Option, none, some, List, [], ◌∷◌,
  ◌++◌, exists_by, filter_by, sort_by, length, if◌then◌else◌,
}
use cftm.Model.{IngressRule}
use cftm.Model.Clock.{Time}
use cftm.Store.Tables.{Tables, stamp}

-- Ingress of one tunnel: ORDER BY idx
unfoldable pub ingress_of : Tables → String → List IngressRule
ingress_of db tunnel_id =
    sort_by (λ r. r.index) (filter_by (λ r. tunnel_id == "" || r.tunnel_id == tunnel_id) db.ingress)

-- the condition in the loop of ingressChanged
abbrev pub differs : IngressRule → IngressRule → Bool
differs p c =
    not (p.hostname == c.hostname)
    || not (p.path == c.path)
    || not (p.service == c.service)
    || not (p.origin_request == c.origin_request)
    || not (nat_eq p.config_version c.config_version)

-- the loop of ingressChanged, over two lists of one length
unfoldable pub any_differs : List IngressRule → List IngressRule → Bool
any_differs [] cs = false
any_differs (p ∷ ps) [] = false
any_differs (p ∷ ps) (c ∷ cs) = let rest = any_differs ps cs in if differs p c then true else rest

-- ingressChanged
unfoldable pub ingress_changed : List IngressRule → List IngressRule → Bool
ingress_changed previous current =
    if not (nat_eq (length previous) (length current)) then true else any_differs previous current

abbrev pub ingress_row : String → Time → IngressRule → IngressRule
ingress_row tunnel_id now r = record r { tunnel_id = tunnel_id; seen_at = stamp now }

abbrev has_key : IngressRule → IngressRule → Bool
has_key r q = q.tunnel_id == r.tunnel_id && nat_eq q.index r.index

-- INSERT INTO ingress fails on a primary key (tunnel_id, idx) that is there
unfoldable pub insert_rules :
    String → Time → List IngressRule → List IngressRule → Option (List IngressRule)
insert_rules tunnel_id now rows [] = some rows
insert_rules tunnel_id now rows (r ∷ rs) =
    let row = ingress_row tunnel_id now r in
    let rest = insert_rules tunnel_id now (rows ++ (row ∷ [])) rs in
    if exists_by (has_key row) rows then none else rest

-- ReplaceIngress; `none` is a statement that fails, after which the tables are as before
unfoldable pub replace_ingress : Tables → String → List IngressRule → Time → Option (Bool × Tables)
replace_ingress db tunnel_id rules now =
    let cleared = filter_by (λ r. not (r.tunnel_id == tunnel_id)) db.ingress in
    elim (insert_rules tunnel_id now cleared rules) [
      | none ↦ none
      | some rows ↦
          some (ingress_changed (ingress_of db tunnel_id) rules, record db { ingress = rows })
    ]
