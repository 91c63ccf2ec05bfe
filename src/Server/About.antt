-- ===== src/Server/About.antt =====
-- permissions, switchedOff and features of internal/server/handlers.go, and what its forms do to the
-- muted findings.
pub mod Observed
use cftm.Base.{
  ℕ, String, Bool, true, false, not, ◌||◌, ◌&&◌, ◌==◌, nat_eq, length, Option, none, some, List, [],
  ◌∷◌, map, if◌then◌else◌,
}
use cftm.Base.Text.{◌<>◌, show_nat}
use cftm.Model.Clock.{Time, zero_time}
use cftm.Store.Ignores.{FindingRef, Ignored, is_valid, ignore_finding, restore_finding}
use cftm.Collector.Capabilities.{
  Capability, Capabilities, known, required_permission, cap_ok, cap_forbidden, cap_tunnels,
  cap_notifications, cap_access_apps, cap_service_tokens, cap_access_logins, cap_zones,
  cap_zone_analytics, cap_login_analytics,
}

-- the fields of the configuration of the server that are read here
pub record Config : Type 0 where
  pub probe_enabled : Bool
  pub probe_token : Bool
  pub probe_client_id : String
  pub audit_enabled : Bool
  pub release_check : Bool
  pub expected_public : List String
  pub notify_enabled : Bool
  pub notify_severity : String
  pub notify_transport : String
  pub access_logins_enabled : Bool
  pub origins_enabled : Bool

-- switchedOff
unfoldable pub switched_off : Config → String → Option String
switched_off cfg key =
    if (key == cap_access_apps || key == cap_service_tokens) && not cfg.audit_enabled
    then some "CFTM_ACCESS_AUDIT_ENABLED is false"
    else if key == cap_access_logins && not cfg.access_logins_enabled
    then some "CFTM_ACCESS_LOGINS_ENABLED is false"
    else if (key == cap_zones || key == cap_zone_analytics || key == cap_login_analytics)
        && not cfg.origins_enabled
    then some "CFTM_ORIGINS_ENABLED is false"
    else none

-- one entry of permissionAreas
pub record Area : Type 0 where
  pub key : String
  pub name : String
  pub lost : String
  pub optional : Bool

-- Permission of internal/web/viewmodels.go
pub record Permission : Type 0 where
  pub name : String
  pub state : String
  pub required : String
  pub detail : String
  pub optional : Bool
  pub checked_at : Time

abbrev pub cap_disabled : String
cap_disabled = "disabled"

-- the switch on the state of a capability
unfoldable pub detail_of : Area → Capability → String
detail_of area c =
    if c.state == cap_ok
    then "Readable"
    else if c.state == cap_forbidden
    then area.lost
    else c.detail

unfoldable pub observed : Area → Option Capability → Permission → Permission
observed area none p = p
observed area (some c) p = record p {
  state = c.state;
  checked_at = c.checked_at;
  detail = detail_of area c;
}

abbrev pub disabled_or : Option String → Permission → Permission → Permission
disabled_or none p q = q
disabled_or (some reason) p q = record p { state = cap_disabled; detail = reason }

abbrev pub uncalled : Area → Permission
uncalled area = record {
  name = area.name;
  state = "unknown";
  required = required_permission area.key;
  detail = "Not called yet";
  optional = area.optional;
  checked_at = zero_time;
}

-- one round of the loop of permissions
unfoldable pub permission : Config → Capabilities → Area → Permission
permission cfg caps area =
    disabled_or (switched_off cfg area.key) (uncalled area)
      (observed area (known caps area.key) (uncalled area))

abbrev area_of : String → String → Bool → String → Area
area_of key name optional lost = record { key = key; name = name; optional = optional; lost = lost }

-- permissionAreas
abbrev pub permission_areas : List Area
permission_areas =
    area_of cap_tunnels "Tunnels, connectors and ingress" false "Nothing works without this"
    ∷ area_of cap_access_apps "Access applications and policies" true
        "The audit page cannot tell which hostnames are protected"
    ∷ area_of cap_service_tokens "Access service tokens" true "Expiring service tokens go unnoticed"
    ∷ area_of cap_notifications "Notification policies" true
        "CFTM cannot tell whether Cloudflare would alert you about a tunnel"
    ∷ area_of cap_access_logins "Access authentication log" true
        "No login or denial figures per application"
    ∷ area_of cap_zones "Zone list" true "Request origins cannot be mapped onto a zone"
    ∷ area_of cap_zone_analytics "Zone traffic analytics" true
        "No origin countries for traffic an Access bypass policy waves through"
    ∷ area_of cap_login_analytics "Access login analytics" true
        "No origin countries for login attempts"
    ∷ []

-- permissions
unfoldable pub permissions : Config → Capabilities → List Permission
permissions cfg caps = map (permission cfg caps) permission_areas

-- FeatureState of internal/web/viewmodels.go
pub record FeatureState : Type 0 where
  pub name : String
  pub state : String
  pub detail : String

abbrev on_or_off : String → Bool → String → String → FeatureState
on_or_off name on detail off =
    if on
    then record { name = name; state = "on"; detail = detail }
    else record { name = name; state = "off"; detail = off }

unfoldable pub probe_feature : Config → FeatureState
probe_feature cfg =
    if cfg.probe_enabled && cfg.probe_token
    then record {
      name = "End-to-end probing";
      state = "on";
      detail = "Requests carry the Access service token " <> cfg.probe_client_id;
    }
    else if cfg.probe_enabled
    then record {
      name = "End-to-end probing";
      state = "unconfigured";
      detail = "No Access service token, so guarded hostnames only reach the edge";
    }
    else record {
      name = "End-to-end probing";
      state = "off";
      detail = "CFTM_PROBE_ENABLED is false";
    }

unfoldable pub notify_feature : Config → FeatureState
notify_feature cfg =
    if not cfg.notify_enabled
    then record { name = "Notifications"; state = "off"; detail = "CFTM_NOTIFY_ENABLED is false" }
    else if not (cfg.notify_transport == "") && not (cfg.notify_transport == "none")
    then record {
      name = "Notifications";
      state = "on";
      detail = "Delivering " <> cfg.notify_severity <> " and above via " <> cfg.notify_transport;
    }
    else record {
      name = "Notifications";
      state = "unconfigured";
      detail =
          "Recording " <> cfg.notify_severity
          <> " and above to the outbox; no delivery channel is wired up yet";
    }

-- features
unfoldable pub features : Config → List FeatureState
features cfg =
    record {
      name = "Tunnel monitoring";
      state = "on";
      detail = "Always on; uptime comes from the Cloudflare tunnel status";
    }
    ∷ on_or_off "Access audit" cfg.audit_enabled
        "Access applications and service tokens are inventoried"
        "CFTM_ACCESS_AUDIT_ENABLED is false"
    ∷ probe_feature cfg
    ∷ on_or_off "cloudflared version check" cfg.release_check
        "Compares connectors against the latest GitHub release"
        "CFTM_RELEASE_CHECK_ENABLED is false"
    ∷ on_or_off "Declared public hostnames" (not (nat_eq (length cfg.expected_public) 0))
        (show_nat (length cfg.expected_public) <> " hostname(s) exempt from the coverage check")
        "CFTM_EXPECTED_PUBLIC is empty"
    ∷ on_or_off "Access authentication log" cfg.access_logins_enabled
        "Login and denial figures per application on the audit page"
        "CFTM_ACCESS_LOGINS_ENABLED is false"
    ∷ on_or_off "Request origins" cfg.origins_enabled
        "Requests summarized by country on the dashboard and the audit page"
        "CFTM_ORIGINS_ENABLED is false"
    ∷ notify_feature cfg
    ∷ []

-- handleIgnoreFinding, with whether the database takes the row: the status code and the rows
unfoldable pub handle_ignore_finding :
    Bool → List Ignored → FindingRef → String → Time → ℕ × List Ignored
handle_ignore_finding saves rows ref message now =
    if not (is_valid ref)
    then (400, rows)
    else if saves
    then (303, ignore_finding rows ref message now)
    else (500, rows)

-- handleRestoreFinding
unfoldable pub handle_restore_finding : Bool → List Ignored → FindingRef → ℕ × List Ignored
handle_restore_finding saves rows ref =
    if not (is_valid ref)
    then (400, rows)
    else if saves
    then (303, restore_finding rows ref)
    else (500, rows)
