-- ===== src/Finding/Code.antt =====
-- The finding codes of internal/collector/health.go.
use cftm.Base.{String}

abbrev pub tunnel_down : String
tunnel_down = "tunnel_down"

abbrev pub tunnel_degraded : String
tunnel_degraded = "tunnel_degraded"

abbrev pub tunnel_inactive : String
tunnel_inactive = "tunnel_inactive"

abbrev pub no_connectors : String
no_connectors = "no_connectors"

abbrev pub low_connections : String
low_connections = "low_ha_connections"

abbrev pub single_colo : String
single_colo = "single_colo"

abbrev pub version_drift : String
version_drift = "version_drift"

abbrev pub config_drift : String
config_drift = "config_drift"

abbrev pub flapping : String
flapping = "flapping"

abbrev pub no_tls_verify : String
no_tls_verify = "ingress_no_tls_verify"

abbrev pub localhost_origin : String
localhost_origin = "ingress_localhost_origin"

abbrev pub access_unprotected : String
access_unprotected = "access_unprotected"

abbrev pub access_bypass : String
access_bypass = "access_bypass"

abbrev pub token_expiring : String
token_expiring = "service_token_expiring"

abbrev pub no_cloudflare_alert : String
no_cloudflare_alert = "no_cloudflare_alert"
