-- ===== src/Probe/Class.antt =====
-- The probe result classes of internal/prober/classify.go.
use cftm.Base.{String}

abbrev pub ok : String
ok = "ok"

abbrev pub access_challenge : String
access_challenge = "access_challenge"

abbrev pub access_denied : String
access_denied = "access_denied"

abbrev pub edge_cached : String
edge_cached = "edge_cached"

abbrev pub tunnel_down : String
tunnel_down = "tunnel_down"

abbrev pub origin_error : String
origin_error = "origin_error"

abbrev pub timeout : String
timeout = "timeout"

abbrev pub dns_error : String
dns_error = "dns_error"

abbrev pub tls_error : String
tls_error = "tls_error"

abbrev pub http_error : String
http_error = "http_error"
