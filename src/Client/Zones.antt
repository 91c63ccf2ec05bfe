-- ===== src/Client/Zones.antt =====
-- ZoneFor of internal/cloudflare/zones.go and ClampWindow of internal/cloudflare/analytics.go.
pub mod Longest
pub mod Window
mod Tests
use cftm.Base.{
  ℕ, String, Bool, true, false, not, ◌||◌, ◌&&◌, ◌==◌, ltb, Option, none, some, List, [], ◌∷◌,
  if◌then◌else◌,
}
use cftm.Base.Text.{◌<>◌, to_lower, trim_space, has_suffix, byte_len}
use cftm.Model.Clock.{Duration}

pub record Zone : Type 0 where
  pub id : String
  pub name : String
  pub plan_name : String

-- the host is the zone's name or ends in a dot and the name
unfoldable pub belongs : String → Zone → Bool
belongs host z =
    let name = to_lower z.name in not (not (host == name) && not (has_suffix host ("." <> name)))

abbrev pub is_longer : Option Zone → Zone → Bool
is_longer none z = true
is_longer (some best) z = ltb (byte_len best.name) (byte_len (to_lower z.name))

-- the loop of ZoneFor, with the best zone so far
unfoldable pub best_zone : String → Option Zone → List Zone → Option Zone
best_zone host best [] = best
best_zone host best (z ∷ zones) =
    best_zone host (if belongs host z && is_longer best z then some z else best) zones

-- ZoneFor; `none` is the `false` of the source
unfoldable pub zone_for : List Zone → String → Option Zone
zone_for zones hostname = best_zone (to_lower (trim_space hostname)) none zones

pub record AnalyticsLimits : Type 0 where
  pub max_duration : Duration
  pub not_older_than : Duration
  pub max_page_size : ℕ

-- AnalyticsLimits.Known
abbrev pub is_known : AnalyticsLimits → Bool
is_known l = ltb 0 l.not_older_than || ltb 0 l.max_duration

-- one round of the loop of ClampWindow
unfoldable pub clamp : Duration → Duration → Duration
clamp bound window = if ltb 0 bound && ltb bound window then bound else window

-- ClampWindow
unfoldable pub clamp_window : AnalyticsLimits → Duration → Duration
clamp_window l window = clamp l.max_duration (clamp l.not_older_than window)
