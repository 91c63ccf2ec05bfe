-- ===== src/Store/Tunnels/Repeat.antt =====
-- A snapshot that repeats changes nothing that is reported.
use cftm.Base.{
  String, Bool, true, false, not, ◌||◌, ◌==◌, ◌≡◌, refl, ◌∙◌, sym, ap, Option, none, some, List, [],
  ◌∷◌, Memᴰ, exists_by_intro, filter_by, if◌then◌else◌, arith,
}
use text.Mathlib.TextPositions.{eq_refl}
use mathlib.Core.List.Memᴰ.{head, tail}
use cftm.Model.{Tunnel, TunnelDiff}
use cftm.Model.Clock.{Time}
use cftm.Store.Tables.{Tables}
use cftm.Store.Tunnels.{
  or_else, is_none, by_id, has_changed, Saving, save_one, save_all, is_seen, gone, unsaved,
  save_tunnels,
}
use cftm.Store.Tunnels.Saved.{status_in, save_tunnels-status, append_nil, seen_iff}

-- The snapshot gives each of its tunnels the status under the tunnel's id.
abbrev pub Settled : List Tunnel → List Tunnel → Type 0
Settled rows ts = (t : Tunnel) → Memᴰ t ts → status_in rows t.id ≡ some t.status

abbrev status_under : Option Tunnel → Option String
status_under none = none
status_under (some p) = some p.status

status_under-or_else :
    (o : Option Tunnel) (b : Bool) (t : Tunnel)
    → or_else (status_under o) (if b then some t.status else none)
      ≡ status_under (or_else o (if b then some t else none))
status_under-or_else (some p) b t = refl
status_under-or_else none true t = refl
status_under-or_else none false t = refl

by_id-status : (rows : List Tunnel) (id : String) → status_in rows id ≡ status_under (by_id rows id)
unfolding status_in by_id
by_id-status [] id = refl
by_id-status (t ∷ ts) id =
    rw (by_id-status ts id) (status_under-or_else (by_id ts id) (t.id == id) t)

unchanged :
    (o : Option Tunnel) (t : Tunnel) → status_under o ≡ some t.status → has_changed o t ≡ false
unchanged none t h = absurd (ground arith)
unchanged (some p) t h = rw (status_eq p.status h, eq_refl t.status) refl
  where
    status_eq : (s : String) → some s ≡ some t.status → s ≡ t.status
    status_eq s e = ground arith

has_changed-status :
    (rows : List Tunnel) (t : Tunnel)
    → status_in rows t.id ≡ some t.status
    → has_changed (by_id rows t.id) t ≡ false
has_changed-status rows t h = unchanged (by_id rows t.id) t (sym (by_id-status rows t.id) ∙ h)

module _ (rows : List Tunnel) (now : Time) where
  save_one_idle :
      (s : Saving) (t : Tunnel)
      → has_changed (by_id rows t.id) t ≡ false
      → ((save_one rows now s t).added ≡ s.added) × ((save_one rows now s t).changes ≡ s.changes)
  unfolding save_one
  save_one_idle s t h =
      (rw (not_none (by_id rows t.id) _ h) (append_nil s.added), rw h (append_nil s.changes))
    where
      not_none : (o : Option Tunnel) (b : Bool) → (is_none o || b) ≡ false → is_none o ≡ false
      not_none none b e = e
      not_none (some u) b e = refl

  save_all_idle :
      (s : Saving) (ts : List Tunnel)
      → Settled rows ts
      → ((save_all rows now s ts).added ≡ s.added) × ((save_all rows now s ts).changes ≡ s.changes)
  unfolding save_all
  save_all_idle s [] h = (refl, refl)
  save_all_idle s (t ∷ ts) h =
      let (a, c) = save_one_idle s t (has_changed-status rows t (h t (head refl))) in
      let (a_rest, c_rest) = save_all_idle (save_one rows now s t) ts (λ u m. h u (tail m)) in
      (a_rest ∙ a, c_rest ∙ c)

filter_by_none {ℓ} :
    {A : Type ℓ} (p : A → Bool) (xs : List A)
    → ((x : A) → Memᴰ x xs → p x ≡ false)
    → filter_by p xs ≡ []
unfolding filter_by
filter_by_none p [] h = refl
filter_by_none p (x ∷ xs) h = rw (h x (head refl)) (filter_by_none p xs (λ y m. h y (tail m)))

none_gone :
    (tunnels rows : List Tunnel)
    → ((id : String) → status_in rows id ≡ status_in tunnels id)
    → gone tunnels rows ≡ []
unfolding gone
none_gone tunnels rows same =
    filter_by_none (λ p. not (is_seen tunnels p.id)) rows (λ t m. ap not (seen t m))
  where
    seen : (t : Tunnel) → Memᴰ t rows → is_seen tunnels t.id ≡ true
    seen t m =
        seen_iff tunnels t.id
        ∙ (ap (λ o. not (is_none o)) (sym (same t.id))
            ∙ (sym (seen_iff rows t.id)
                ∙ exists_by_intro (λ u. u.id == t.id) rows m (eq_refl t.id)))

abbrev pub no_change : TunnelDiff
no_change = record { changes = []; added = []; removed = [] }

-- If a snapshot, in which no id stands with two statuses, is saved again, the second difference is
-- empty: nothing is added, removed or changed.
pub save_tunnels-again :
    (db : Tables) (tunnels : List Tunnel) (now later : Time)
    → Settled tunnels tunnels
    → (save_tunnels (save_tunnels db tunnels now).1 tunnels later).0 ≡ no_change
save_tunnels-again db tunnels now later h =
    again (save_tunnels db tunnels now).1 (save_tunnels-status db tunnels now)
  where
    again :
        (saved : Tables)
        → ((id : String) → status_in saved.tunnels id ≡ status_in tunnels id)
        → (save_tunnels saved tunnels later).0 ≡ no_change
    again saved same =
        let (a, c) =
          save_all_idle saved.tunnels later (unsaved saved) tunnels (λ t m. same t.id ∙ h t m) in
        unfold save_tunnels in rw (a, c, none_gone tunnels saved.tunnels same) refl
