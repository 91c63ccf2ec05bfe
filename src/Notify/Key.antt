-- ===== src/Notify/Key.antt =====
-- The target state is part of the key of a condition.
use Prim.Native.String.{String}
use cftm.Base.{◌≡◌}
use cftm.Base.Text.{◌<>◌, join}
use text.Mathlib.TextLemmas.{append_cancel_left}
use cftm.Model.{Event}
use cftm.Notify.{dedup_key}

-- Two events of one kind for one tunnel and hostname have the same key only if they lead to the
-- same state, so a recovery is announced after its outage.
pub dedup_key-to_state :
    (e f : Event)
    → e.kind ≡ f.kind
    → e.tunnel_id ≡ f.tunnel_id
    → e.hostname ≡ f.hostname
    → dedup_key e ≡ dedup_key f
    → e.to_state ≡ f.to_state
unfolding dedup_key join
dedup_key-to_state e f k t h same =
    cancel "|"
      (cancel f.hostname (cancel "|" (cancel f.tunnel_id (cancel "|" (cancel f.kind flat)))))
  where
    cancel : (s : String) {u v : String} → s <> u ≡ s <> v → u ≡ v
    cancel s {u} {v} p = append_cancel_left s u v p

    flat :
        f.kind <> "|" <> f.tunnel_id <> "|" <> f.hostname <> "|" <> e.to_state
        ≡ f.kind <> "|" <> f.tunnel_id <> "|" <> f.hostname <> "|" <> f.to_state
    flat = cc
