-- ===== src/Probe/Laws.antt =====
-- When a response counts as evidence that the origin answered.
use cftm.Base.{
  ℕ, String, Bool, true, false, ◌&&◌, ◌||◌, not, ◌≡◌, Option, none, some, nat_eq, leb,
  if◌then◌else◌, arith,
}
use cftm.Probe.{
  Response, TransportError, edge_failure_status, is_access_redirect, has_access_markers, is_cached,
  classify_origin, classify_failure, classify, classify_error, is_healthy, is_failure,
}
use cftm.Probe.Class
use cftm.Base.{ap_if, ◌∙◌}

-- the statuses that Cloudflare's edge answers itself
abbrev pub is_edge_failure : ℕ → Bool
is_edge_failure code =
    nat_eq code 502 || nat_eq code 504 || leb 520 code && leb code 524 || nat_eq code 530

fail_origin : (resp : Response) (body : String) → is_failure (classify_origin resp body) ≡ false
unfolding classify_origin
fail_origin resp body = simp (ap_if is_failure) (unfold is_failure in ground arith)

abbrev failure_class : ℕ → Option String
failure_class code = if nat_eq code 530 then some Class.tunnel_down else some Class.origin_error

edge_cases :
    (code : ℕ)
    → edge_failure_status code ≡ (if is_edge_failure code then failure_class code else none)
unfolding edge_failure_status
edge_cases code = ground arith

-- on an edge failure the class is a failure, whatever the body says
fail_at_edge :
    (b : Bool) (resp : Response) (body : String)
    → is_failure (classify_failure (if b then failure_class resp.status_code else none) resp body)
      ≡ b
unfolding classify_failure
fail_at_edge false resp body =
    ap_if is_failure (is_access_redirect resp) _ _
    ∙ (rw fail_origin (unfold is_failure in ground arith))
fail_at_edge true resp body = at_status (nat_eq resp.status_code 530)
  where
    at_status :
        (c : Bool)
        → is_failure (
            classify_failure
              (if c then some Class.tunnel_down else some Class.origin_error)
              resp
              body)
          ≡ true
    at_status true = simp (ap_if is_failure) (unfold is_failure in ground arith)
    at_status false = simp (ap_if is_failure) (unfold is_failure in ground arith)

-- A response is classified as a failure exactly when its status is 502, 504, 520 to 524 or 530.
pub failure_iff_edge_status :
    (resp : Response) (body : String)
    → is_failure (classify resp body) ≡ is_edge_failure resp.status_code
unfolding classify
failure_iff_edge_status resp body =
    rw (edge_cases resp.status_code) (fail_at_edge (is_edge_failure resp.status_code) resp body)

ok_origin :
    (resp : Response) (body : String)
    → is_healthy (classify_origin resp body)
      ≡ not (
          (nat_eq resp.status_code 401 || nat_eq resp.status_code 403)
            && has_access_markers resp body
          || is_cached resp.cache_status)
unfolding classify_origin
ok_origin resp body = simp (ap_if is_healthy) (unfold is_healthy in ground arith)

ok_at_edge :
    (b : Bool) (resp : Response) (body : String)
    → is_healthy (classify_failure (if b then failure_class resp.status_code else none) resp body)
      ≡ not (
          b
          || (is_access_redirect resp
              || ((nat_eq resp.status_code 401 || nat_eq resp.status_code 403)
                    && has_access_markers resp body
                  || is_cached resp.cache_status)))
unfolding classify_failure
ok_at_edge false resp body =
    ap_if is_healthy (is_access_redirect resp) _ _
    ∙ (rw ok_origin (unfold is_healthy in ground arith))
ok_at_edge true resp body = at_status (nat_eq resp.status_code 530)
  where
    at_status :
        (c : Bool)
        → is_healthy (
            classify_failure
              (if c then some Class.tunnel_down else some Class.origin_error)
              resp
              body)
          ≡ false
    at_status true = simp (ap_if is_healthy) (unfold is_healthy in ground arith)
    at_status false = simp (ap_if is_healthy) (unfold is_healthy in ground arith)

-- A response is classified as healthy exactly when its status is no edge failure, it is no
-- redirect to Access, no 401 or 403 with the marks of Access, and not from the edge's cache.
pub healthy_iff_origin_answered :
    (resp : Response) (body : String)
    → is_healthy (classify resp body)
      ≡ not (
          is_edge_failure resp.status_code
          || (is_access_redirect resp
              || ((nat_eq resp.status_code 401 || nat_eq resp.status_code 403)
                    && has_access_markers resp body
                  || is_cached resp.cache_status)))
unfolding classify
healthy_iff_origin_answered resp body =
    rw (edge_cases resp.status_code) (ok_at_edge (is_edge_failure resp.status_code) resp body)

-- Every transport error is classified as a failure.
pub error-is_failure : (err : TransportError) → is_failure (classify_error (some err)) ≡ true
unfolding classify_error
error-is_failure err = simp (ap_if is_failure) (unfold is_failure in ground arith)
