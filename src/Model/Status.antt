-- ===== src/Model/Status.antt =====
-- The tunnel status values of internal/cloudflare/types.go.
use cftm.Base.{String}

abbrev pub healthy : String
healthy = "healthy"

abbrev pub degraded : String
degraded = "degraded"

abbrev pub down : String
down = "down"

abbrev pub inactive : String
inactive = "inactive"
