-- ===== src/Store/Tunnels/Saved.antt =====
-- The tables hold the snapshot that was saved last.
use cftm.Base.{
  String, Bool, true, false, not, ◌&&◌, ◌==◌, ◌≡◌, refl, ◌∙◌, sym, ap, Option, none, some, List, [],
  ◌∷◌, ◌++◌, map, exists_by, exists_by-filter_by, filter_by, if◌then◌else◌, Bool-cases, inl, inr,
  arith, eq_iff,
}
use text.Mathlib.TextPositions.{eq_refl}
use cftm.Model.{Tunnel}
use cftm.Model.Clock.{Time}
use cftm.Store.History.{HistoryRow}
use cftm.Store.Tables.{Tables}
use cftm.Store.Tunnels.{
  or_else, is_none, by_id, history_row, tunnel_row, first_seen, update_rows, upsert, Saving,
  save_one, save_all, is_seen, gone, is_gone, is_left, unsaved, save_tunnels,
}

-- the status under an id
unfoldable pub status_in : List Tunnel → String → Option String
status_in [] id = none
status_in (t ∷ ts) id = or_else (status_in ts id) (if t.id == id then some t.status else none)

append_assoc {ℓ} : {A : Type ℓ} (xs ys zs : List A) → (xs ++ ys) ++ zs ≡ xs ++ (ys ++ zs)
append_assoc [] ys zs = refl
append_assoc (x ∷ xs) ys zs = ap (λ l. x ∷ l) (append_assoc xs ys zs)

or_else_assoc {ℓ} :
    {A : Type ℓ} (o p q : Option A) → or_else (or_else o p) q ≡ or_else o (or_else p q)
or_else_assoc none p q = refl
or_else_assoc (some a) p q = refl

pub or_else-none {ℓ} : {A : Type ℓ} (o : Option A) → or_else o none ≡ o
or_else-none none = refl
or_else-none (some a) = refl

pub append_nil {ℓ} : {A : Type ℓ} (xs : List A) → xs ++ [] ≡ xs
append_nil [] = refl
append_nil (x ∷ xs) = ap (λ l. x ∷ l) (append_nil xs)

map-append {ℓ κ} :
    {A : Type ℓ} {B : Type κ} (f : A → B) (xs ys : List A) → map f (xs ++ ys) ≡ map f xs ++ map f ys
map-append f [] ys = refl
map-append f (x ∷ xs) ys = ap (λ l. f x ∷ l) (map-append f xs ys)

-- history and changes grow together
save_all-history :
    (previous : List Tunnel) (now : Time) (old : List HistoryRow) (s : Saving) (ts : List Tunnel)
    → s.history ≡ old ++ map history_row s.changes
    → (save_all previous now s ts).history
      ≡ old ++ map history_row (save_all previous now s ts).changes
unfolding save_all
save_all-history previous now old s [] h = h
save_all-history previous now old s (t ∷ ts) h =
    save_all-history previous now old (save_one previous now s t) ts (
      unfold save_one in
      rw (h, map-append history_row s.changes) (append_assoc old (map history_row s.changes) _))

-- A saved snapshot adds to the status history exactly the rows of the changes that it reports.
pub save_tunnels-history :
    (db : Tables) (tunnels : List Tunnel) (now : Time)
    → (save_tunnels db tunnels now).1.history
      ≡ db.history ++ map history_row (save_tunnels db tunnels now).0.changes
unfolding save_tunnels
save_tunnels-history db tunnels now =
    save_all-history db.tunnels now db.history (unsaved db) tunnels (sym (append_nil db.history))

module _ (row : Tunnel) where
  abbrev is_row : Tunnel → Bool
  is_row t = t.id == row.id

  update_none :
      (rows : List Tunnel)
      → exists_by is_row rows ≡ false
      → status_in (update_rows row rows) row.id ≡ none
  unfolding update_rows status_in exists_by
  update_none [] h = refl
  update_none (t ∷ ts) h = elim (Bool-cases (t.id == row.id)) [
    | inl e ↦ absurd (ground arith)
    | inr e ↦ rw (e, update_none ts (rw e at h)) (rw e refl)
  ]

  update_same :
      (rows : List Tunnel)
      → exists_by is_row rows ≡ true
      → status_in (update_rows row rows) row.id ≡ some row.status
  unfolding update_rows status_in exists_by
  update_same [] h = absurd (ground arith)
  update_same (t ∷ ts) h = elim (Bool-cases (exists_by is_row ts)) [
    | inl e ↦ rw (update_same ts e) refl
    | inr e ↦ elim (Bool-cases (t.id == row.id)) [
      | inl k ↦ rw (k, update_none ts e, eq_refl row.id) refl
      | inr k ↦ absurd (ground arith)
    ]
  ]

  update_other :
      (id : String) (rows : List Tunnel)
      → (row.id == id) ≡ false
      → status_in (update_rows row rows) id ≡ status_in rows id
  unfolding update_rows status_in
  update_other id [] h = refl
  update_other id (t ∷ ts) h = elim (Bool-cases (t.id == row.id)) [
    | inl k ↦
        rw (k, update_other id ts h) (rw (h, ap (λ x. x == id) ((eq_iff t.id row.id).0 k) ∙ h) refl)
    | inr k ↦ rw (k, update_other id ts h) refl
  ]

  append_status :
      (id : String) (rows : List Tunnel)
      → status_in (rows ++ (row ∷ [])) id
        ≡ or_else (if row.id == id then some row.status else none) (status_in rows id)
  unfolding status_in
  append_status id [] = sym (or_else-none (if row.id == id then some row.status else none))
  append_status id (t ∷ ts) = rw (append_status id ts) (
      or_else_assoc (if row.id == id then some row.status else none) (status_in ts id)
        (if t.id == id then some t.status else none))

  upsert_status :
      (id : String) (rows : List Tunnel)
      → status_in (upsert row rows) id
        ≡ or_else (if row.id == id then some row.status else none) (status_in rows id)
  unfolding upsert
  upsert_status id rows = elim (Bool-cases (exists_by is_row rows)) [
    | inl e ↦ elim (Bool-cases (row.id == id)) [
      | inl k ↦
          rw (e, k)
            (ap (status_in (update_rows row rows)) (sym ((eq_iff row.id id).0 k))
              ∙ update_same rows e)
      | inr k ↦ rw (e, k) (update_other id rows k)
    ]
    | inr e ↦ rw e (append_status id rows)
  ]

save_one-status :
    (previous : List Tunnel) (now : Time) (s : Saving) (t : Tunnel) (id : String)
    → status_in (save_one previous now s t).rows id
      ≡ or_else (if t.id == id then some t.status else none) (status_in s.rows id)
unfolding save_one
save_one-status previous now s t id =
    upsert_status (tunnel_row (first_seen (by_id previous t.id) now) now t) id s.rows

save_all-status :
    (previous : List Tunnel) (now : Time) (s : Saving) (ts : List Tunnel) (id : String)
    → status_in (save_all previous now s ts).rows id
      ≡ or_else (status_in ts id) (status_in s.rows id)
unfolding save_all status_in
save_all-status previous now s [] id = refl
save_all-status previous now s (t ∷ ts) id =
    save_all-status previous now (save_one previous now s t) ts id
    ∙ rw (save_one-status previous now s t id) (sym (or_else_assoc (status_in ts id) _ _))

status_in-filter :
    (left : String → Bool) (id : String) (rows : List Tunnel)
    → status_in (filter_by (λ t. left t.id) rows) id ≡ (if left id then status_in rows id else none)
unfolding filter_by status_in
status_in-filter left id [] = ground arith
status_in-filter left id (t ∷ ts) = elim (Bool-cases (t.id == id)) [
  | inl k ↦
      let same = ap left ((eq_iff t.id id).0 k) in
      elim (Bool-cases (left t.id)) [
        | inl e ↦ rw (e, k, status_in-filter left id ts, sym same ∙ e) refl
        | inr e ↦ rw (e, status_in-filter left id ts, sym same ∙ e) refl
      ]
  | inr k ↦ elim (Bool-cases (left t.id)) [
    | inl e ↦
        rw (e, k, or_else-none (status_in ts id), or_else-none (status_in (rest) id))
          (status_in-filter left id ts)
    | inr e ↦ rw (e, k, or_else-none (status_in ts id)) (status_in-filter left id ts)
  ]
]
  where
    rest : List Tunnel
    rest = filter_by (λ t. left t.id) ts

pub seen_iff : (ts : List Tunnel) (id : String) → is_seen ts id ≡ not (is_none (status_in ts id))
unfolding status_in exists_by
seen_iff [] id = refl
seen_iff (t ∷ ts) id = elim (Bool-cases (t.id == id)) [
  | inl k ↦ rw k (some_last (status_in ts id) _)
  | inr k ↦ rw (k, seen_iff ts id) (none_last (status_in ts id))
]
  where
    some_last : (o : Option String) (s : String) → true ≡ not (is_none (or_else o (some s)))
    some_last none s = refl
    some_last (some u) s = refl

    none_last : (o : Option String) → not (is_none o) ≡ not (is_none (or_else o none))
    none_last none = refl
    none_last (some u) = refl

gone_iff :
    (tunnels previous : List Tunnel) (id : String)
    → is_gone tunnels previous id ≡ (not (is_seen tunnels id) && is_seen previous id)
unfolding gone
gone_iff tunnels previous id =
    exists_by-filter_by (λ p. not (is_seen tunnels p.id)) (λ p. p.id == id)
      (not (is_seen tunnels id)) previous same
  where
    false_both : (a b : Bool) → (a && false) ≡ (b && false)
    false_both a b = ground arith

    same :
        (p : Tunnel)
        → (not (is_seen tunnels p.id) && p.id == id) ≡ (not (is_seen tunnels id) && p.id == id)
    same p = elim (Bool-cases (p.id == id)) [
      | inl k ↦ rw ((eq_iff p.id id).0 k)
      | inr k ↦ rw k (false_both _ _)
    ]

-- After a snapshot is saved, every id has the status that the snapshot gives it last, and an id that
-- the snapshot lacks has none.
pub save_tunnels-status :
    (db : Tables) (tunnels : List Tunnel) (now : Time) (id : String)
    → status_in (save_tunnels db tunnels now).1.tunnels id ≡ status_in tunnels id
unfolding save_tunnels
save_tunnels-status db tunnels now id =
    status_in-filter (is_left tunnels db.tunnels) id
      (save_all db.tunnels now (unsaved db) tunnels).rows
    ∙ rw
        (
          save_all-status db.tunnels now (unsaved db) tunnels id,
          gone_iff tunnels db.tunnels id,
          seen_iff tunnels id,
          seen_iff db.tunnels id,
        )
        (kept (status_in tunnels id) (status_in db.tunnels id))
  where
    kept :
        (o p : Option String)
        → (if not (not (not (is_none o)) && not (is_none p)) then or_else o p else none) ≡ o
    kept none none = refl
    kept none (some u) = refl
    kept (some s) none = refl
    kept (some s) (some u) = refl
