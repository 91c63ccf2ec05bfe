-- ===== src/Probe/Tests.antt =====
-- Responses and transport errors.
use cftm.Base.{◌≡◌, refl, false, none, some, []}
use cftm.Base.Text.{to_lower, has_suffix}
use cftm.Probe.{
  Response, TransportError, classify, is_healthy, is_access_redirect, edge_failure_status,
}
use cftm.Probe.Class
use cftm.Probe.Laws.{healthy_iff_origin_answered}

abbrev tunnel_gone : Response
tunnel_gone = record {
  status_code = 530;
  header_keys = [];
  location_host = none;
  cache_status = "";
}

abbrev login_page : Response
login_page = record {
  status_code = 302;
  header_keys = [];
  location_host = some "team.cloudflareaccess.com";
  cache_status = "";
}

classify-login_page : classify login_page "" ≡ Class.access_challenge
unfolding classify edge_failure_status is_access_redirect to_lower has_suffix
classify-login_page = refl

healthy_iff_origin_answered_example : is_healthy (classify login_page "") ≡ false
unfolding is_access_redirect to_lower has_suffix
healthy_iff_origin_answered_example = healthy_iff_origin_answered login_page ""

abbrev bad_certificate : TransportError
bad_certificate = record {
  is_dns = false;
  is_net_timeout = false;
  is_url_timeout = false;
  text = "tls: unknown authority";
}
