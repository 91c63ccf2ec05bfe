-- ===== src/Finding.antt =====
-- Findings of internal/collector/health.go: their codes, and the worst severity among them.
pub mod Code
pub mod Worst
use cftm.Base.{String, List, [], ◌∷◌, Bool, ◌&&◌, ◌==◌, ltb, if◌then◌else◌, exists_by}
use cftm.Severity.{Severity, rank}

pub record Finding : Type 0 where
  pub code : String
  pub severity : Severity
  pub message : String
  pub hostname : String

-- the loop of WorstSeverity, from the worst so far
worst_from : Severity → List Finding → Severity
worst_from worst [] = worst
worst_from worst (f ∷ fs) =
    worst_from (if ltb (rank worst) (rank f.severity) then f.severity else worst) fs

-- WorstSeverity
unfoldable pub worst_severity : List Finding → Severity
unfolding worst_from
worst_severity fs = worst_from "" fs
