-- ===== src/Web/Labels.antt =====
-- The labels and CSS classes of internal/web/viewmodels.go and internal/web/helpers.go.
use cftm.Base.{
  ℕ, ◌-◌, String, not, ◌&&◌, ◌||◌, ◌==◌, nat_eq, ltb, Option, none, some, if◌then◌else◌,
}
use cftm.Base.Text.{◌<>◌, show_nat}
use cftm.Model.{ProbeResult}
use cftm.Severity.{info, warning, critical}
use cftm.Server.Summary.{Probes}
use cftm.Server.AuditPage.{AccessState}

abbrev badge : String
badge = "badge"

abbrev pub badge_ok : String
badge_ok = "badge badge-ok"

abbrev pub badge_warn : String
badge_warn = "badge badge-warn"

abbrev pub badge_error : String
badge_error = "badge badge-error"

abbrev pub badge_muted : String
badge_muted = "badge badge-muted"

-- StatusDotClass
unfoldable pub status_dot_class : String → String
status_dot_class status =
    if status == "healthy"
    then "status-dot status-dot-healthy"
    else if status == "degraded"
    then "status-dot status-dot-degraded"
    else if status == "down"
    then "status-dot status-dot-down"
    else if status == "inactive"
    then "status-dot status-dot-inactive"
    else "status-dot"

-- BeatClass
unfoldable pub beat_class : String → String
beat_class status =
    if status == "healthy"
    then "beat beat-healthy"
    else if status == "degraded"
    then "beat beat-degraded"
    else if status == "down"
    then "beat beat-down"
    else if status == "inactive"
    then "beat beat-inactive"
    else "beat"

-- BadgeClass
unfoldable pub badge_class : String → String
badge_class severity =
    if severity == critical
    then badge_error
    else if severity == warning
    then badge_warn
    else if severity == info
    then badge_muted
    else badge_ok

-- ProbeBadgeClass
unfoldable pub probe_badge_class : String → String
probe_badge_class class =
    if class == "ok"
    then badge_ok
    else if class == "access_challenge" || class == "access_denied" || class == "edge_cached"
    then badge_muted
    else if class == ""
    then badge
    else badge_error

-- StatusBadgeClass
unfoldable pub status_badge_class : String → String
status_badge_class status =
    if status == "healthy"
    then badge_ok
    else if status == "degraded"
    then badge_warn
    else if status == "down"
    then badge_error
    else badge_muted

-- healthyTone, of Totals.Tunnels and Totals.Healthy
unfoldable pub healthy_tone : ℕ → ℕ → String
healthy_tone tunnels healthy =
    if ltb 0 tunnels && ltb healthy tunnels then "text-rose-300" else "text-emerald-300"

-- findingsTone
unfoldable pub findings_tone : ℕ → String
findings_tone findings = if ltb 0 findings then "text-amber-300" else "text-slate-100"

-- probeLabel
unfoldable pub probe_label : Option ProbeResult → String
probe_label none = "—"
probe_label (some p) = if p.class == "" then "—" else p.class

-- cardStatColumns
unfoldable pub card_stat_columns : Probes → String
card_stat_columns p = if ltb 0 p.checked then "sm:grid-cols-5" else "sm:grid-cols-4"

-- probeSummaryTone
unfoldable pub probe_summary_tone : Probes → String
probe_summary_tone p = if ltb p.ok p.checked then "text-rose-300" else "text-emerald-300"

-- ProbeSummaryLabel
unfoldable pub probe_summary_label : Probes → String
probe_summary_label p =
    if nat_eq p.checked 0
    then "not checked yet"
    else if ltb p.checked p.total
    then show_nat p.ok
      <> " / "
      <> show_nat p.checked
      <> " ok, "
      <> show_nat (p.total - p.checked)
      <> " pending"
    else show_nat p.ok <> " / " <> show_nat p.total <> " ok"

-- accessLabel
unfoldable pub access_label : AccessState → String
access_label a =
    if not a.known
    then "unknown"
    else if a.protected && a.has_bypass
    then "bypass policy"
    else if a.protected && a.has_token
    then "token allowed"
    else if a.protected
    then "protected"
    else "public"

-- accessBadgeClass
unfoldable pub access_badge_class : AccessState → String
access_badge_class a =
    if not a.known
    then badge
    else if not a.protected
    then badge_error
    else if a.has_bypass
    then badge_warn
    else badge_ok

-- originBadgeClass, of OriginCountry.Denied
unfoldable pub origin_badge_class : ℕ → String
origin_badge_class denied = if ltb 0 denied then badge_warn else badge_muted

-- tokenBadgeClass, of ServiceToken.Severity
unfoldable pub token_badge_class : String → String
token_badge_class severity =
    if severity == "critical"
    then badge_error
    else if severity == "warning"
    then badge_warn
    else badge_ok

-- eventBadgeClass, of Event.Severity
unfoldable pub event_badge_class : String → String
event_badge_class severity =
    if severity == "critical"
    then badge_error
    else if severity == "warning"
    then badge_warn
    else badge_muted

-- logLevelClass
unfoldable pub log_level_class : String → String
log_level_class level =
    if level == "ERROR"
    then "text-rose-300"
    else if level == "WARN"
    then "text-amber-300"
    else if level == "DEBUG"
    then "text-slate-500"
    else "text-slate-400"

-- featureLabel
unfoldable pub feature_label : String → String
feature_label state =
    if state == "on" then "active" else if state == "unconfigured" then "incomplete" else "off"

-- featureBadgeClass
unfoldable pub feature_badge_class : String → String
feature_badge_class state =
    if state == "on" then badge_ok else if state == "unconfigured" then badge_warn else badge_muted

-- deniedTone
unfoldable pub denied_tone : ℕ → String
denied_tone denied = if ltb 0 denied then "text-rose-300" else "text-slate-100"

-- PermissionLabel
unfoldable pub permission_label : String → String
permission_label state =
    if state == "ok"
    then "readable"
    else if state == "forbidden"
    then "missing"
    else if state == "error"
    then "error"
    else if state == "disabled"
    then "off"
    else "not checked"

-- PermissionBadgeClass
unfoldable pub permission_badge_class : String → String
permission_badge_class state =
    if state == "ok"
    then badge_ok
    else if state == "forbidden"
    then badge_warn
    else if state == "error"
    then badge_error
    else badge_muted
