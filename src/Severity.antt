-- ===== src/Severity.antt =====
-- The severity scale of internal/collector/health.go. A Severity is a text there, and any text may
-- be converted to one.
use cftm.Base.{ℕ, String, ◌==◌, if◌then◌else◌}

abbrev pub Severity : Type 0
Severity = String

abbrev pub info : Severity
info = "info"

abbrev pub warning : Severity
warning = "warning"

abbrev pub critical : Severity
critical = "critical"

-- Severity.Rank
unfoldable pub rank : Severity → ℕ
rank s = if s == critical then 3 else if s == warning then 2 else if s == info then 1 else 0
