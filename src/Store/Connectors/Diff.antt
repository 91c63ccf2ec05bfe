-- ===== src/Store/Connectors/Diff.antt =====
-- What the difference of two connector sets says of one connector.
use cftm.Base.{
  String, Bool, true, false, not, ◌&&◌, ◌==◌, eq_iff, ◌≡◌, refl, ◌∙◌, Option, none, some, List, [],
  ◌∷◌, exists_by, exists_by-filter_by, if◌then◌else◌, Bool-cases, inl, inr, arith,
}
use cftm.Model.{Connector}
use cftm.Store.Tunnels.{or_else, is_none}
use cftm.Store.Connectors.{connector_by_id, connector_diff}

abbrev pub has_id : String → List Connector → Bool
has_id id cs = exists_by (λ c. c.id == id) cs

by_id-none :
    (cs : List Connector) (id : String) → is_none (connector_by_id cs id) ≡ not (has_id id cs)
unfolding connector_by_id exists_by
by_id-none [] id = refl
by_id-none (c ∷ cs) id = last (connector_by_id cs id) (c.id == id) (has_id id cs) (by_id-none cs id)
  where
    last :
        (o : Option Connector) (b h : Bool)
        → is_none o ≡ not h
        → is_none (or_else o (if b then some c else none)) ≡ not (if b then true else h)
    last none true h e = refl
    last none false h e = e
    last (some d) true h e = refl
    last (some d) false h e = e

module _ (id : String) where
  pick :
      (test : String → Bool) (c : Connector) → (test c.id && c.id == id) ≡ (test id && c.id == id)
  pick test c = elim (Bool-cases (c.id == id)) [
    | inl k ↦ rw ((eq_iff c.id id).0 k)
    | inr k ↦ rw k (both (test c.id) (test id))
  ]
    where
      both : (a b : Bool) → (a && false) ≡ (b && false)
      both a b = ground arith

  -- A connector is reported as added exactly when it is in the new set and not in the stored one, and
  -- as removed exactly when it is in the stored set and not in the new one.
  pub connector_diff_iff :
      (previous connectors : List Connector)
      → (has_id id (connector_diff previous connectors).added
          ≡ (not (has_id id previous) && has_id id connectors))
        × (has_id id (connector_diff previous connectors).removed
            ≡ (not (has_id id connectors) && has_id id previous))
  unfolding connector_diff
  connector_diff_iff previous connectors = (
    exists_by-filter_by (λ c. is_none (connector_by_id previous c.id)) (λ c. c.id == id)
          (is_none (connector_by_id previous id)) connectors
          (pick (λ i. is_none (connector_by_id previous i)))
        ∙ rw (by_id-none previous id) refl,
    exists_by-filter_by (λ c. not (exists_by (λ d. d.id == c.id) connectors)) (λ c. c.id == id)
        (not (has_id id connectors)) previous (pick (λ i. not (has_id i connectors))),
  )
