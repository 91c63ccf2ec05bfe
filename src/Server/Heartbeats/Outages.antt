-- ===== src/Server/Heartbeats/Outages.antt =====
-- No outage is averaged away.
use cftm.Base.{
  ℕ, zero, suc, String, true, not, ◌||◌, ◌≡◌, ◌≤◌, ◌<◌, ◌+◌, ◌-◌, ◌*◌, ◌/◌, refl, sym, nat_eq, ltb,
  ltb→lt, List, [], ◌∷◌, Memᴰ, if◌then◌else◌, if_split, Bool-cases, inl, inr, arith,
}
use mathlib.Core.List.Memᴰ.{head, tail}
use mathlib.Core.Path.{subst}
use native.Mathlib.Nat.{suc-mul}
use cftm.Model.{StatusChange}
use cftm.Model.Clock.{Time, Duration, after, before}
use cftm.Store.Uptime.Bound.{Ordered}
use cftm.Server.Heartbeats.{
  Heartbeat, Scan, status_rank, worse_status, scan, beats, build_heartbeats,
}

worse_left : (a b : String) → status_rank a ≤ status_rank (worse_status a b)
unfolding worse_status
worse_left a b =
    if_split (λ s. status_rank a ≤ status_rank s) (ltb (status_rank a) (status_rank b)) b a
      (λ e. ground arith) (λ e. omega arith)

worse_right : (a b : String) → status_rank b ≤ status_rank (worse_status a b)
unfolding worse_status
worse_right a b =
    if_split (λ s. status_rank b ≤ status_rank s) (ltb (status_rank a) (status_rank b)) b a
      (λ e. omega arith) (λ e. ground arith)

first_le :
    {c : StatusChange} (t : Time) (cs : List StatusChange)
    → Ordered t cs
    → Memᴰ c cs
    → t ≤ c.changed_at
first_le t [] o m = elim m [ ]
first_le t (d ∷ cs) o (head e) = rw e o.0
first_le t (d ∷ cs) o (tail m) =
    let h = first_le d.changed_at cs o.1 m in let k = o.0 in omega arith

weaken : (s t : Time) (cs : List StatusChange) → s ≤ t → Ordered t cs → Ordered s cs
weaken s t [] h o = tt
weaken s t (c ∷ cs) h o = let k = o.0 in (omega arith, o.1)

module _ (start end : Time) where
  scan-raises :
      (worst current : String) (cs : List StatusChange)
      → status_rank worst ≤ status_rank (scan start end worst current cs).worst
  unfolding scan
  scan-raises worst current [] = omega arith
  scan-raises worst current (c ∷ cs) =
      if_split {A = Scan} (λ s. status_rank worst ≤ status_rank s.worst) (before c.changed_at end) _
        _ (λ e. let h = scan-raises worse c.status cs in let k = step in omega arith)
        (λ e. omega arith)
    where
      worse : String
      worse = if not (before c.changed_at start) then worse_status worst c.status else worst

      step : status_rank worst ≤ status_rank worse
      step =
          if_split (λ s. status_rank worst ≤ status_rank s) (not (before c.changed_at start)) _ _
            (λ e. worse_left worst c.status) (λ e. omega arith)

  scan-worst :
      {c : StatusChange} (t : Time) (worst current : String) (cs : List StatusChange)
      → Ordered t cs
      → Memᴰ c cs
      → start ≤ c.changed_at
      → c.changed_at < end
      → status_rank c.status ≤ status_rank (scan start end worst current cs).worst
  unfolding scan
  scan-worst t worst current [] o m h k = elim m [ ]
  scan-worst {c} t worst current (d ∷ cs) o m h k = elim m [
    | head e ↦ rw e (at_head (rw e at h) (rw e at k))
    | tail n ↦
        let first = first_le d.changed_at cs o.1 n in
        if_split {A = Scan} (λ s. status_rank c.status ≤ status_rank s.worst)
          (before d.changed_at end) _ _ (λ e. scan-worst d.changed_at worse d.status cs o.1 n h k)
          (λ e. absurd (ground arith))
  ]
    where
      worse : String
      worse = if not (before d.changed_at start) then worse_status worst d.status else worst

      raised : start ≤ d.changed_at → status_rank d.status ≤ status_rank worse
      raised late =
          if_split (λ s. status_rank d.status ≤ status_rank s) (not (before d.changed_at start)) _ _
            (λ e. worse_right worst d.status) (λ e. absurd (ground arith))

      at_head :
          start ≤ d.changed_at
          → d.changed_at < end
          → status_rank d.status ≤ status_rank (scan start end worst current (d ∷ cs)).worst
      at_head late early =
          if_split {A = Scan} (λ s. status_rank d.status ≤ status_rank s.worst)
            (before d.changed_at end) _ _
            (λ e. let r = scan-raises worse d.status cs in let w = raised late in omega arith)
            (λ e. absurd (ground arith))

  scan-rest :
      {c : StatusChange} (worst current : String) (cs : List StatusChange)
      → Memᴰ c cs
      → end ≤ c.changed_at
      → Memᴰ c (scan start end worst current cs).rest
  unfolding scan
  scan-rest worst current [] m h = elim m [ ]
  scan-rest {c} worst current (d ∷ cs) m h =
      if_split {A = Scan} (λ s. Memᴰ c s.rest) (before d.changed_at end) _ _
        (λ e. elim m [
          | head q ↦ let g = rw q at h in absurd (ground arith)
          | tail n ↦ scan-rest worse d.status cs n h
        ])
        (λ e. m)
    where
      worse : String
      worse = if not (before d.changed_at start) then worse_status worst d.status else worst

  scan-Ordered :
      (t : Time) (worst current : String) (cs : List StatusChange)
      → Ordered t cs
      → Ordered t (scan start end worst current cs).rest
  unfolding scan
  scan-Ordered t worst current [] o = tt
  scan-Ordered t worst current (d ∷ cs) o =
      if_split {A = Scan} (λ s. Ordered t s.rest) (before d.changed_at end) _ _
        (λ e.
          scan-Ordered t
            (if not (before d.changed_at start) then worse_status worst d.status else worst)
            d.status cs (weaken t d.changed_at cs o.0 o.1))
        (λ e. o)

-- the time that a number of buckets covers
abbrev pub span : ℕ → Duration → Duration
span zero width = 0
span (suc left) width = width + span left width

span_mul : (left : ℕ) (width : Duration) → span left width ≡ left * width
span_mul zero width = omega arith
span_mul (suc left) width = let h = span_mul left width in let k = suc-mul left width in omega arith

-- a heartbeat of the list is at least as bad as a status
abbrev pub Shown : String → List Heartbeat → Type 0
Shown status hs = (b : Heartbeat) × Memᴰ b hs × (status_rank status ≤ status_rank b.status)

beats-Shown :
    (width : Duration) (left : ℕ) (start : Time) (current : String) (cs : List StatusChange)
    (c : StatusChange)
    → Ordered 0 cs
    → Memᴰ c cs
    → start ≤ c.changed_at
    → c.changed_at < start + span left width
    → Shown c.status (beats width left start current cs)
unfolding beats
beats-Shown width zero start current cs c o m h k = absurd (omega arith)
beats-Shown width (suc left) start current cs c o m h k =
    elim (Bool-cases (before c.changed_at end)) [
      | inl e ↦ (
        _,
        head refl,
        scan-worst start end 0 current current cs o m h (ltb→lt c.changed_at end e),
      )
      | inr e ↦
          let (b, n, r) =
            beats-Shown width left end s.current s.rest c
              (scan-Ordered start end 0 current current cs o)
              (scan-rest start end current current cs m (ground arith)) (ground arith)
              (omega arith) in
          (b, tail n, r)
    ]
  where
    end : Time
    end = start + width

    s : Scan
    s = scan start end current current cs

-- Every status that a change brings within the buckets is shown: for changes in ascending order, one
-- of the heartbeats is at least as bad as it.
pub build_heartbeats-Shown :
    (initial : String) (changes : List StatusChange) (from to : Time) (buckets : ℕ)
    (c : StatusChange)
    → Ordered 0 changes
    → Memᴰ c changes
    → from ≤ c.changed_at
    → c.changed_at < from + buckets * ((to - from) / buckets)
    → from < to
    → Shown c.status (build_heartbeats initial changes from to buckets)
unfolding build_heartbeats
build_heartbeats-Shown initial changes from to buckets c o m h k some_time =
    if_split (Shown c.status) (nat_eq buckets 0 || not (after to from)) _ _
      (λ e. let none_left = rw (no_buckets e) at k in absurd (omega arith))
      (λ e.
        beats-Shown ((to - from) / buckets) buckets from initial changes c o m h
          (subst (λ s. c.changed_at < from + s) (sym (span_mul buckets ((to - from) / buckets))) k))
  where
    no_buckets : (nat_eq buckets 0 || not (after to from)) ≡ true → buckets ≡ 0
    no_buckets e = ground arith
