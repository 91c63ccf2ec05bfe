-- ===== src/Store/Uptime/Bound.antt =====
-- The healthy time stays within the observed window.
use cftm.Base.{
  sort_by, Ascending, sort_by-Ascending, ◌==◌, ◌&&◌, filter_by, ℕ, String, not, ◌≤◌, ◌-◌, Option,
  none, some, List, [], ◌∷◌, map, leb, if_split, arith,
}
use cftm.Model.{StatusChange, Uptime}
use cftm.Model.Clock.{Time, Duration, ago, after, from_unix, to_unix}
use cftm.Model.Status
use cftm.Store.History.{HistoryRow, read_row, status_history, status_at}
use cftm.Store.Uptime.{skip_until, healthy_time, walk, measured, uptime_of, uptime_for}

-- transitions in ascending order, none before the given time
abbrev pub Ordered : Time → List StatusChange → Type 0
Ordered t [] = Unit
Ordered t (c ∷ cs) = (t ≤ c.changed_at) × Ordered c.changed_at cs

abbrev changed : HistoryRow → ℕ
changed r = r.changed_at

from_unix_mono : (m n : ℕ) → m ≤ n → from_unix m ≤ from_unix n
unfolding from_unix
from_unix_mono m n h = ground arith

read-Ordered :
    (n : ℕ) (rs : List HistoryRow)
    → Ascending changed n rs
    → Ordered (from_unix n) (map read_row rs)
read-Ordered n [] o = tt
read-Ordered n (r ∷ rs) o = (from_unix_mono n r.changed_at o.0, read-Ordered r.changed_at rs o.1)

history-Ordered :
    (rows : List HistoryRow) (id : String) (since : Time) → Ordered 0 (status_history rows id since)
unfolding status_history from_unix
history-Ordered rows id since =
    read-Ordered 0
      (sort_by changed
        (filter_by (λ r. r.tunnel_id == id && leb (to_unix since) r.changed_at) rows))
      (sort_by-Ascending changed
        (filter_by (λ r. r.tunnel_id == id && leb (to_unix since) r.changed_at) rows))

skip_until-Ordered :
    (t start : Time) (cs : List StatusChange) → Ordered t cs → Ordered start (skip_until start cs)
unfolding skip_until
skip_until-Ordered t start [] o = tt
skip_until-Ordered t start (c ∷ cs) o =
    if_split (Ordered start) (not (after c.changed_at start)) _ _
      (λ e. skip_until-Ordered c.changed_at start cs o.1) (λ e. (ground arith, o.1))

healthy_at_most :
    (current : String) (from until : Time) → healthy_time current from until ≤ until - from
unfolding healthy_time
healthy_at_most current from until =
    if_split (λ d. d ≤ until - from) (current == Status.healthy) _ _ (λ e. omega arith)
      (λ e. omega arith)

walk_bound :
    (current : String) (cursor : Time) (cs : List StatusChange) (now : Time)
    → Ordered cursor cs
    → (walk current cursor cs now).0 ≤ now - cursor
unfolding walk
walk_bound current cursor [] now o = healthy_at_most current cursor now
walk_bound current cursor (c ∷ cs) now o =
    let rest = walk_bound c.status c.changed_at cs now o.1 in
    let h = o.0 in
    if_split {A = Duration × ℕ} (λ w. w.0 ≤ now - cursor) (after c.changed_at now) _ _
      (λ e. healthy_at_most current cursor now)
      (λ e. let step = healthy_at_most current cursor c.changed_at in ground arith)

measured_bound :
    (current : String) (start : Time) (cs : List StatusChange) (now : Time)
    → Ordered start cs
    → (measured current start cs now).healthy ≤ (measured current start cs now).window
unfolding measured
measured_bound current start cs now o =
    let h = walk_bound current start cs now o in
    if_split {A = Uptime} (λ u. u.healthy ≤ u.window) (leb now start) _ _ (λ e. omega arith)
      (λ e. h)

uptime_of_bound :
    (known : Option String) (window : Duration) (start : Time) (cs : List StatusChange) (now : Time)
    → Ordered 0 cs
    → (uptime_of known window start cs now).healthy ≤ (uptime_of known window start cs now).window
unfolding uptime_of
uptime_of_bound (some s) window start cs now o =
    measured_bound s start (skip_until start cs) now (skip_until-Ordered 0 start cs o)
uptime_of_bound none window start [] now o = omega arith
uptime_of_bound none window start (c ∷ cs) now o = measured_bound c.status c.changed_at cs now o.1

-- The healthy time that UptimeFor divides is at most the window it divides by, whatever the order
-- of the stored rows, so the ratio lies between 0 and 1.
pub uptime_for-bound :
    (rows : List HistoryRow) (id : String) (window : Duration) (now : Time)
    → (uptime_for rows id window now).healthy ≤ (uptime_for rows id window now).window
unfolding uptime_for
uptime_for-bound rows id window now =
    uptime_of_bound (status_at rows id (ago now window)) window (ago now window)
      (status_history rows id (ago now window)) now (history-Ordered rows id (ago now window))
