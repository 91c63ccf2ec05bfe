-- ===== src/Collector/Capabilities.antt =====
-- internal/collector/capabilities.go: what the API token was last observed to be allowed to read.
-- The map is an association list, and its copy in the table meta is the map itself.
pub mod Known
use cftm.Base.{
  ℕ, String, Bool, true, false, ◌||◌, ◌==◌, nat_eq, Option, none, some, ◌≡◌, ◌⊎◌, inl, inr, refl,
  List, [], ◌∷◌, if◌then◌else◌,
}
use cftm.Model.Clock.{Time}
use cftm.Client.GraphQl
use cftm.Client.GraphQl.{QueryError}

-- the errors that isForbidden tells apart
pub data CallError : Type 0 where
  -- *APIError, by its status code and text
  api : ℕ → String → CallError
  -- *GraphQLError
  query : QueryError → CallError
  other : String → CallError

-- what a call of the API answers
pub data Call {ℓ} (A : Type ℓ) : Type ℓ where
  failed : CallError → Call A
  answered : A → Call A

-- Error
unfoldable pub error_text : CallError → String
error_text (api status text) = text
error_text (query e) = GraphQl.text e
error_text (other text) = text

-- isForbidden
unfoldable pub is_forbidden : CallError → Bool
is_forbidden (api status text) = nat_eq status 401 || nat_eq status 403
is_forbidden (query e) = e.authz
is_forbidden (other text) = false

abbrev pub cap_tunnels : String
cap_tunnels = "tunnels"

abbrev pub cap_access_apps : String
cap_access_apps = "access_apps"

abbrev pub cap_service_tokens : String
cap_service_tokens = "service_tokens"

abbrev pub cap_notifications : String
cap_notifications = "notifications"

abbrev pub cap_access_logins : String
cap_access_logins = "access_logins"

abbrev pub cap_zones : String
cap_zones = "zones"

abbrev pub cap_zone_analytics : String
cap_zone_analytics = "zone_analytics"

abbrev pub cap_login_analytics : String
cap_login_analytics = "login_analytics"

abbrev pub cap_ok : String
cap_ok = "ok"

abbrev pub cap_forbidden : String
cap_forbidden = "forbidden"

abbrev pub cap_error : String
cap_error = "error"

-- Capability
pub record Capability : Type 0 where
  pub state : String
  pub detail : String
  pub checked_at : Time

-- RequiredPermission
unfoldable pub required_permission : String → String
required_permission key =
    if key == cap_tunnels
    then "Account : Cloudflare Tunnel : Read"
    else if key == cap_access_apps
    then "Account : Access: Apps and Policies : Read"
    else if key == cap_service_tokens
    then "Account : Access: Service Tokens : Read"
    else if key == cap_notifications
    then "Account : Notifications : Read"
    else if key == cap_access_logins
    then "Account : Access: Audit Logs : Read"
    else if key == cap_zones
    then "Zone : Zone : Read"
    else if key == cap_zone_analytics
    then "Zone : Analytics : Read"
    else if key == cap_login_analytics
    then "Account : Account Analytics : Read"
    else ""

abbrev pub Capabilities : Type 0
Capabilities = List (String × Capability)

unfoldable pub known : Capabilities → String → Option Capability
known [] key = none
known ((k, c) ∷ caps) key = let rest = known caps key in if k == key then some c else rest

unfoldable pub put : String → Capability → Capabilities → Capabilities
put key c [] = (key, c) ∷ []
put key c ((k, d) ∷ caps) =
    let rest = put key c caps in if k == key then (k, c) ∷ caps else (k, d) ∷ rest

-- the state and the detail that record derives from an error
unfoldable pub capability_of : Option CallError → Time → Capability
capability_of none now = record { state = cap_ok; detail = ""; checked_at = now }
capability_of (some e) now =
    if is_forbidden e
    then record {
      state = cap_forbidden;
      detail = "the token does not carry this permission";
      checked_at = now;
    }
    else record { state = cap_error; detail = error_text e; checked_at = now }

-- record
unfoldable pub note_call : Capabilities → String → Option CallError → Time → Capabilities
note_call caps key err now = put key (capability_of err now) caps

abbrev pub error_of {ℓ} : {A : Type ℓ} → Call A → Option CallError
error_of (failed e) = some e
error_of (answered a) = none

pub Call-cases {ℓ} :
    {A : Type ℓ} (c : Call A) → ((e : CallError) × (c ≡ failed e)) ⊎ ((a : A) × (c ≡ answered a))
Call-cases (failed e) = inl (e, refl)
Call-cases (answered a) = inr (a, refl)
