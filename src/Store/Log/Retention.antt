-- ===== src/Store/Log/Retention.antt =====
-- What retention means for the uptime of a tunnel.
use cftm.Base.{
  ℕ, String, Bool, false, not, ◌&&◌, ◌==◌, eq_iff, ◌≡◌, ◌<◌, refl, ltb, leb, lt→ltb, List, [], ◌∷◌,
  Memᴰ, filter_by, sort_by, Bool-cases, inl, inr,
}
use mathlib.Core.List.Memᴰ.{head, tail}
use cftm.Model.Clock.{Time, Duration, ago, to_unix}
use cftm.Store.History.{HistoryRow, status_history, status_at, last_status}
use cftm.Store.Tables.{Tables}
use cftm.Store.Uptime.{uptime_of, uptime_for}
use cftm.Store.Log.{prune}

-- no transition of the tunnel at or after a time
abbrev pub Quiet : Tables → String → Time → Type 0
Quiet db id since =
    (r : HistoryRow) → Memᴰ r db.history → r.tunnel_id ≡ id → r.changed_at < to_unix since

nothing_left :
    (id : String) (cutoff : ℕ) (test : HistoryRow → Bool) (rows : List HistoryRow)
    → ((r : HistoryRow) → Memᴰ r rows → r.tunnel_id ≡ id → r.changed_at < cutoff)
    → filter_by
        (λ r. r.tunnel_id == id && test r)
        (filter_by (λ r. not (ltb r.changed_at cutoff)) rows)
      ≡ []
unfolding filter_by
nothing_left id cutoff test [] h = refl
nothing_left id cutoff test (r ∷ rows) h =
    let rest = nothing_left id cutoff test rows (λ q m. h q (tail m)) in
    elim (Bool-cases (r.tunnel_id == id)) [
      | inl e ↦ rw (lt→ltb r.changed_at cutoff (h r (head refl) ((eq_iff r.tunnel_id id).0 e))) rest
      | inr e ↦ elim (Bool-cases (ltb r.changed_at cutoff)) [
        | inl k ↦ rw k rest
        | inr k ↦ rw (k, e) rest
      ]
    ]

-- Once a tunnel has had no transition since the cutoff of Prune, its uptime is reported as not
-- observed over every window: Prune deletes the row that holds its present status.
pub prune-unobserved :
    (db : Tables) (id : String) (cutoff : Time) (window : Duration) (now : Time)
    → Quiet db id cutoff
    → (uptime_for (prune db cutoff).history id window now).observed ≡ false
unfolding prune uptime_for status_history status_at last_status uptime_of sort_by
prune-unobserved db id cutoff window now quiet =
    let since = ago now window in
    rw
      (
        nothing_left id (to_unix cutoff) (λ r. leb r.changed_at (to_unix since)) db.history quiet,
        nothing_left id (to_unix cutoff) (λ r. leb (to_unix since) r.changed_at) db.history quiet,
      )
      refl
