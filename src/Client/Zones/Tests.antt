-- ===== src/Client/Zones/Tests.antt =====
-- A zone and a delegated one below it.
use cftm.Base.{String, refl, List, [], ◌∷◌}
use cftm.Base.Text
use mathlib.Core.List.Memᴰ.{head, tail}
use cftm.Base.Text.{to_lower, trim_space}
use cftm.Model.Clock.{day}
use cftm.Base.{◌*◌}
use cftm.Client.Zones.{AnalyticsLimits, Zone, zone_for, belongs}
use cftm.Client.Zones.Longest.{AllLower, AtLeast, zone_for-longest}

abbrev zone : String → Zone
zone name = record { id = name; name = name; plan_name = "Free" }

abbrev zones : List Zone
zones = zone "example.com" ∷ zone "lab.example.com" ∷ []

zones-AllLower : AllLower zones
unfolding to_lower
zones-AllLower z (head e) = rw e refl
zones-AllLower z (tail (head e)) = rw e refl
zones-AllLower z (tail (tail m)) = elim m [ ]

zone_for-longest_example :
    AtLeast
      (to_lower (trim_space "wiki.lab.example.com"))
      (zone "example.com")
      (zone_for zones "wiki.lab.example.com")
unfolding belongs to_lower trim_space Text.has_suffix
zone_for-longest_example =
    zone_for-longest zones "wiki.lab.example.com" (zone "example.com") zones-AllLower (head refl)
      refl

abbrev free_plan : AnalyticsLimits
free_plan = record { max_duration = day; not_older_than = 3 * day; max_page_size = 100 }
