-- ===== src/Model/Kind.antt =====
-- The event kinds of internal/store/models.go.
use cftm.Base.{String}

abbrev pub tunnel_status : String
tunnel_status = "tunnel_status"

abbrev pub tunnel_added : String
tunnel_added = "tunnel_added"

abbrev pub tunnel_removed : String
tunnel_removed = "tunnel_removed"

abbrev pub connector_added : String
connector_added = "connector_added"

abbrev pub connector_removed : String
connector_removed = "connector_removed"

abbrev pub config_changed : String
config_changed = "config_changed"

abbrev pub version_drift : String
version_drift = "version_drift"

abbrev pub probe : String
probe = "probe"

abbrev pub access_coverage : String
access_coverage = "access_coverage"

abbrev pub service_token_aging : String
service_token_aging = "service_token_aging"

abbrev pub origin_country : String
origin_country = "origin_country"

abbrev pub poll_failed : String
poll_failed = "poll_failed"
