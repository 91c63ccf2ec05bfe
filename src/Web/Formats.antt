-- ===== src/Web/Formats.antt =====
-- The durations, times and lists that internal/web/viewmodels.go renders.
use cftm.Base.{
  ℕ, ◌-◌, ◌*◌, ◌/◌, String, not, ◌||◌, ◌&&◌, nat_eq, ltb, leb, length, List, if◌then◌else◌,
}
use cftm.Base.Text.{◌<>◌, join, show_nat, to_lower, byte_len}
use cftm.Model.{Uptime}
use cftm.Model.Clock.{Time, Duration, is_zero, after, hour, day, second}
use Prim.Native.String.{slice}

abbrev pub minute : Duration
minute = 60 * second

-- plural
unfoldable pub plural : ℕ → String → String
plural n unit = if nat_eq n 1 then "1 " <> unit else show_nat n <> " " <> unit <> "s"

-- FormatDuration
unfoldable pub format_duration : Time → Time → String
format_duration t now =
    let d = now - t in
    if is_zero t || after t now
    then ""
    else if ltb d minute
    then "just now"
    else if ltb d hour
    then plural (d / minute) "minute"
    else if ltb d day
    then plural (d / hour) "hour"
    else plural (d / day) "day"

-- FormatWindow
unfoldable pub format_window : Duration → String
format_window d =
    if leb day d
    then show_nat (d / day) <> "d"
    else if leb hour d
    then show_nat (d / hour) <> "h"
    else show_nat (d / minute) <> "m"

-- UptimeNote, with the nominal window
unfoldable pub uptime_note : Uptime → Duration → String
uptime_note u nominal =
    if not u.observed
    then "no status recorded yet"
    else if ltb 0 nominal
        && (ltb 0 u.window && (leb minute nominal && ltb u.window (nominal - minute)))
    then "observed " <> format_window u.window <> " so far"
    else ""

-- ShortVersion, of a version of ASCII characters
unfoldable pub short_version : String → String
short_version v = if leb (byte_len v) 24 then v else slice v 0 21 <> "…"

-- FormatRelative: a time after now is less than a minute ago
unfoldable pub format_relative : Time → Time → String
format_relative t now =
    let d = now - t in
    if is_zero t
    then "never"
    else if ltb d minute
    then "just now"
    else if ltb d hour
    then show_nat (d / minute) <> "m ago"
    else if ltb d day
    then show_nat (d / hour) <> "h ago"
    else show_nat (d / day) <> "d ago"

-- Join
unfoldable pub join_list : List String → String
join_list values = if nat_eq (length values) 0 then "—" else join values ", "

-- FilterKey
unfoldable pub filter_key : List String → String
filter_key parts = to_lower (join parts " ")
