-- ===== src/Event/Laws.antt =====
-- Which events the difference of two polls raises for one tunnel.
use cftm.Base.{
  exists_by-map, exists_by-filter_by, String, Bool, false, not, ◌&&◌, ◌≡◌, refl, List, ◌++◌, map,
  ◌==◌, eq_iff, exists_by, filter_by, exists_by-append, exists_by_none, Bool-cases, ◌∙◌, inl, inr,
  arith,
}
use cftm.Model.{Event, Tunnel, TunnelDiff, StatusChange}
use cftm.Model.Clock.{Time}
use cftm.Model.Kind
use cftm.Event.{tunnel_events, tunnel_added, tunnel_removed, status_changed, was_added}

-- an event of this kind for this tunnel
abbrev pub is_of : String → String → Event → Bool
is_of kind id e = e.kind == kind && e.tunnel_id == id

-- a status change of a tunnel that was there before
module _ (diff : TunnelDiff) (now : Time) (id : String) where
  kept_if_known :
      (c : StatusChange)
      → (not (was_added diff c.tunnel_id) && is_of Kind.tunnel_status id (status_changed c))
        ≡ (not (was_added diff id) && is_of Kind.tunnel_status id (status_changed c))
  kept_if_known c = elim (Bool-cases (c.tunnel_id == id)) [
    | inl e ↦ rw ((eq_iff c.tunnel_id id).0 e)
    | inr e ↦ rw e (and_false _ _)
  ]
    where
      and_false : (a b : Bool) → (a && false) ≡ (b && false)
      and_false a b = ground arith

  -- Among the events raised for the difference of two polls, one reports a status change of a tunnel
  -- exactly when the difference has such a change and the tunnel is not one that was just added.
  pub status_event_iff :
      exists_by (is_of Kind.tunnel_status id) (tunnel_events diff now)
      ≡ (not (was_added diff id) && exists_by (λ c. c.tunnel_id == id) diff.changes)
  unfolding tunnel_events
  status_event_iff =
      exists_by-append at (map (tunnel_added now) diff.added)
        (map (tunnel_removed now) diff.removed ++ map status_changed known)
      ∙ (rw (exists_by-append at (map (tunnel_removed now) diff.removed) (map status_changed known))
          (rw
            (
              added_never diff.added,
              removed_never diff.removed,
              exists_by-map at status_changed known,
            )
            (exists_by-filter_by (λ c. not (was_added diff c.tunnel_id))
              (λ c. is_of Kind.tunnel_status id (status_changed c)) (not (was_added diff id))
              diff.changes kept_if_known)))
    where
      at : Event → Bool
      at = is_of Kind.tunnel_status id

      known : List StatusChange
      known = filter_by (λ c. not (was_added diff c.tunnel_id)) diff.changes

      added_never : (ts : List Tunnel) → exists_by at (map (tunnel_added now) ts) ≡ false
      added_never ts =
          exists_by-map at (tunnel_added now) ts ∙ exists_by_none (λ t. false) ts (λ t m. refl)

      removed_never : (ts : List Tunnel) → exists_by at (map (tunnel_removed now) ts) ≡ false
      removed_never ts =
          exists_by-map at (tunnel_removed now) ts ∙ exists_by_none (λ t. false) ts (λ t m. refl)
