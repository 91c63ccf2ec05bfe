-- ===== src/Store/Samples/Latest.antt =====
-- Which probe result is the latest one after a round is stored.
use cftm.Base.{
  String, Bool, true, false, not, ◌&&◌, ◌==◌, ◌≡◌, refl, ◌∙◌, ap, leb, Option, none, some, List, [],
  ◌∷◌, ◌++◌, map, sym, if_split, exists_by, exists_by-map, nat_eq, length, holds, if◌then◌else◌,
  arith, Bool-cases, inl, inr,
}
use mathlib.Core.List.{append-nil, map-append}
use text.Mathlib.TextPositions.{eq_refl}
use cftm.Model.{ProbeResult}
use cftm.Model.Clock.{Time}
use cftm.Store.Tables.{Tables}
use cftm.Store.Tables.{stamp}
use cftm.Store.Log.{probe_row, add_probe_results}
use cftm.Store.Samples.{latest_from, latest_probe_result}

latest_from-append :
    (rows : List ProbeResult) (best : Option ProbeResult) (more : List ProbeResult) (host : String)
    → latest_from best (rows ++ more) host ≡ latest_from (latest_from best rows host) more host
unfolding latest_from
latest_from-append [] best more host = refl
latest_from-append (r ∷ rows) best more host = latest_from-append rows _ more host

-- rows of other hostnames change nothing
latest_from-others :
    (rows : List ProbeResult) (best : Option ProbeResult) (host : String)
    → exists_by (λ r. r.hostname == host) rows ≡ false
    → latest_from best rows host ≡ best
unfolding latest_from exists_by
latest_from-others [] best host h = refl
latest_from-others (r ∷ rows) best host h = elim (Bool-cases (r.hostname == host)) [
  | inl e ↦ absurd (true-ne-false (rw (e, if◌then◌else◌) at h))
  | inr e ↦ rw e (latest_from-others rows best host (rw (e, if◌then◌else◌) at h))
]
  where
    true-ne-false : true ≡ false → ⊥
    true-ne-false q = absurd (ground arith)

-- a row of the hostname that is not before the time
abbrev pub is_since : Time → String → ProbeResult → Bool
is_since t host r = r.hostname == host && leb t r.checked_at

latest_from_early :
    (t : Time) (rows : List ProbeResult) (best : Option ProbeResult) (host : String)
    → holds (λ b. leb t b.checked_at) best ≡ false
    → exists_by (is_since t host) rows ≡ false
    → holds (λ b. leb t b.checked_at) (latest_from best rows host) ≡ false
unfolding latest_from exists_by
latest_from_early t [] best host h early = h
latest_from_early t (r ∷ rows) best host h early =
    latest_from_early t rows _ host
      (if_split {A = Option ProbeResult} (λ o. holds (λ b. leb t b.checked_at) o ≡ false)
        (r.hostname == host && not (holds (λ b. leb r.checked_at b.checked_at) best)) _ _
        (λ e. ground arith) (λ e. h))
      (ground arith)

probe_results-add :
    (db : Tables) (results : List ProbeResult)
    → (add_probe_results db results).probe_results ≡ db.probe_results ++ map probe_row results
unfolding add_probe_results
probe_results-add db [] = sym (append-nil db.probe_results)
probe_results-add db (r ∷ rs) =
    if_split {A = Tables} (λ d. d.probe_results ≡ db.probe_results ++ map probe_row (r ∷ rs))
      (nat_eq (length (r ∷ rs)) 0) _ _ (λ e. absurd (ground arith)) (λ e. refl)

newest :
    (xs ys : List ProbeResult) (r : ProbeResult) (best : Option ProbeResult)
    → holds (λ b. leb r.checked_at b.checked_at) best ≡ false
    → exists_by (λ q. q.hostname == r.hostname) xs ≡ false
    → exists_by (λ q. q.hostname == r.hostname) ys ≡ false
    → latest_from best (xs ++ (r ∷ ys)) r.hostname ≡ some r
unfolding latest_from
newest xs ys r best early before behind =
    latest_from-append xs best (r ∷ ys) r.hostname
    ∙ rw (latest_from-others xs best r.hostname before, latest_from, eq_refl r.hostname, early)
        (latest_from-others ys (some r) r.hostname behind)

-- Once the results of a round are stored, the latest result of a hostname is the one that the round
-- found for it, where every row of the hostname stored before lies in an earlier second.
pub latest-add :
    (db : Tables) (xs ys : List ProbeResult) (r : ProbeResult)
    → exists_by (is_since (stamp r.checked_at) r.hostname) db.probe_results ≡ false
    → exists_by (λ q. q.hostname == r.hostname) xs ≡ false
    → exists_by (λ q. q.hostname == r.hostname) ys ≡ false
    → latest_probe_result (add_probe_results db (xs ++ (r ∷ ys))) r.hostname ≡ some (probe_row r)
unfolding latest_probe_result latest_from exists_by
latest-add db xs ys r early before behind =
    ap (λ rows. latest_from none rows r.hostname)
      (probe_results-add db (xs ++ (r ∷ ys))
        ∙ ap (λ rows. db.probe_results ++ rows) (map-append probe_row xs (r ∷ ys)))
    ∙ latest_from-append db.probe_results none _ r.hostname
    ∙ newest (map probe_row xs) (map probe_row ys) (probe_row r) _
        (latest_from_early (stamp r.checked_at) db.probe_results none r.hostname refl early)
        (exists_by-map (λ q. q.hostname == r.hostname) probe_row xs ∙ before)
        (exists_by-map (λ q. q.hostname == r.hostname) probe_row ys ∙ behind)
