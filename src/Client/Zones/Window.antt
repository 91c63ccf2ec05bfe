-- ===== src/Client/Zones/Window.antt =====
-- The clamped window.
use cftm.Base.{◌≤◌, ◌<◌, arith}
use cftm.Model.Clock.{Duration}
use cftm.Client.Zones.{AnalyticsLimits, clamp, clamp_window}

-- A clamped window is no longer than what was asked for, and within each bound of the plan that is
-- known.
pub clamp_window-within :
    (l : AnalyticsLimits) (window : Duration)
    → (clamp_window l window ≤ window)
      × (0 < l.not_older_than → clamp_window l window ≤ l.not_older_than)
      × (0 < l.max_duration → clamp_window l window ≤ l.max_duration)
unfolding clamp_window clamp
clamp_window-within l window = (ground arith, λ h. ground arith, λ h. ground arith)
