-- ===== src/Finding/Worst.antt =====
-- The worst severity is an upper bound of the ranks, and it is the severity of some finding.
use cftm.Base.{
  ◌≤◌, ◌≡◌, refl, sym, List, [], ◌∷◌, ◌⊎◌, inl, inr, Memᴰ, arith, ltb, Bool-cases, if◌then◌else◌,
}
use mathlib.Core.List.Memᴰ.{head, tail}
use cftm.Severity.{Severity, rank}
use cftm.Finding.{Finding, worst_from, worst_severity}

worst_from-ge : (w : Severity) (fs : List Finding) → rank w ≤ rank (worst_from w fs)
unfolding worst_from
worst_from-ge w [] = omega arith
worst_from-ge w (f ∷ fs) =
    let w' : Severity = if ltb (rank w) (rank f.severity) then f.severity else w in
    ground (arith, worst_from-ge w' fs)

rank_mem-le-worst_from :
    (w : Severity) {f : Finding} (fs : List Finding)
    → Memᴰ f fs
    → rank f.severity ≤ rank (worst_from w fs)
unfolding worst_from
rank_mem-le-worst_from w [] m = elim m [ ]
rank_mem-le-worst_from w (g ∷ fs) (head e) =
    let w' : Severity = if ltb (rank w) (rank g.severity) then g.severity else w in
    rw e (ground (arith, worst_from-ge w' fs))
rank_mem-le-worst_from w (g ∷ fs) (tail m) =
    rank_mem-le-worst_from (if ltb (rank w) (rank g.severity) then g.severity else w) fs m

worst_from_attained :
    (w : Severity) (fs : List Finding)
    → (worst_from w fs ≡ w) ⊎ ((f : Finding) × Memᴰ f fs × (f.severity ≡ worst_from w fs))
unfolding worst_from
worst_from_attained w [] = inl refl
worst_from_attained w (f ∷ fs) = elim (Bool-cases (ltb (rank w) (rank f.severity))) [
  | inl e ↦ rw e (raised (worst_from_attained f.severity fs))
  | inr e ↦ rw e (kept (worst_from_attained w fs))
]
  where
    raised :
        (worst_from f.severity fs ≡ f.severity)
          ⊎ ((g : Finding) × Memᴰ g fs × (g.severity ≡ worst_from f.severity fs))
        → (worst_from f.severity fs ≡ w)
          ⊎ ((g : Finding) × Memᴰ g (f ∷ fs) × (g.severity ≡ worst_from f.severity fs))
    raised (inl e) = inr (f, head refl, sym e)
    raised (inr (g, m, e)) = inr (g, tail m, e)

    kept :
        (worst_from w fs ≡ w) ⊎ ((g : Finding) × Memᴰ g fs × (g.severity ≡ worst_from w fs))
        → (worst_from w fs ≡ w) ⊎ ((g : Finding) × Memᴰ g (f ∷ fs) × (g.severity ≡ worst_from w fs))
    kept (inl e) = inl e
    kept (inr (g, m, e)) = inr (g, tail m, e)

-- The worst severity of a list of findings ranks at least as high as each of them, and it is the
-- severity of one of them, or empty.
pub worst_severity_greatest :
    (fs : List Finding)
    → ((f : Finding) → Memᴰ f fs → rank f.severity ≤ rank (worst_severity fs))
      × ((worst_severity fs ≡ "") ⊎ ((f : Finding) × Memᴰ f fs × (f.severity ≡ worst_severity fs)))
unfolding worst_severity
worst_severity_greatest fs = (λ f m. rank_mem-le-worst_from "" fs m, worst_from_attained "" fs)
