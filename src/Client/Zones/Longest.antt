-- ===== src/Client/Zones/Longest.antt =====
-- The longest zone wins.
use cftm.Base.{
  String, Bool, true, false, ◌&&◌, ◌≡◌, ◌≤◌, refl, ap, sym, Option, none, some, List, [], ◌∷◌, Memᴰ,
  if◌then◌else◌, if_split, arith,
}
use mathlib.Core.List.Memᴰ.{head, tail}
use mathlib.Core.Path.{subst}
use cftm.Base.Text.{to_lower, trim_space, byte_len}
use cftm.Client.Zones.{Zone, belongs, is_longer, best_zone, zone_for}

-- the zones have their names in lower case, as the API gives them
abbrev pub AllLower : List Zone → Type 0
AllLower zones = (z : Zone) → Memᴰ z zones → to_lower z.name ≡ z.name

-- the outcome is a zone of the host whose name is at least as long as that of the given one
abbrev pub AtLeast : String → Zone → Option Zone → Type 0
AtLeast host z o =
    (best : Zone) × (o ≡ some best)
    × (byte_len z.name ≤ byte_len best.name)
    × (belongs host best ≡ true)

abbrev Fits : String → Option Zone → Type 0
Fits host none = Unit
Fits host (some b) = belongs host b ≡ true

both_true : (a c : Bool) → (a && c) ≡ true → (a ≡ true) × (c ≡ true)
both_true true c e = (refl, e)
both_true false c e = absurd (ground arith)

second_false : (a c : Bool) → a ≡ true → (a && c) ≡ false → c ≡ false
second_false true c h e = e
second_false false c h e = absurd (ground arith)

longer_name :
    (b z : Zone)
    → to_lower z.name ≡ z.name
    → is_longer (some b) z ≡ true
    → byte_len b.name ≤ byte_len z.name
longer_name b z lower h = let same = ap byte_len lower in ground arith

shorter_name :
    (b z : Zone)
    → to_lower z.name ≡ z.name
    → is_longer (some b) z ≡ false
    → byte_len z.name ≤ byte_len b.name
shorter_name b z lower h = let same = ap byte_len lower in ground arith

module _ (host : String) where
  from_some :
      (b : Zone) (zones : List Zone)
      → AllLower zones
      → belongs host b ≡ true
      → AtLeast host b (best_zone host (some b) zones)
  unfolding best_zone
  from_some b [] lower h = (b, refl, omega arith, h)
  from_some b (z ∷ zones) lower h =
      if_split {A = Option Zone} (λ o. AtLeast host b (best_zone host o zones))
        (belongs host z && is_longer (some b) z) _ _
        (λ e.
          let (best, q, l, m) =
            from_some z zones (λ y n. lower y (tail n)) (both_true (belongs host z) _ e).0 in
          let k = longer_name b z (lower z (head refl)) (both_true (belongs host z) _ e).1 in
          (best, q, omega arith, m))
        (λ e. from_some b zones (λ y n. lower y (tail n)) h)

  at_first :
      (o : Option Zone) (y : Zone) (zones : List Zone)
      → AllLower (y ∷ zones)
      → Fits host o
      → belongs host y ≡ true
      → AtLeast host y
          (best_zone host (if belongs host y && is_longer o y then some y else o) zones)
  at_first none y zones lower fits h =
      if_split {A = Option Zone} (λ o. AtLeast host y (best_zone host o zones))
        (belongs host y && is_longer none y) _ _
        (λ e. from_some y zones (λ x n. lower x (tail n)) h) (λ e. absurd (ground arith))
  at_first (some b) y zones lower fits h =
      if_split {A = Option Zone} (λ o. AtLeast host y (best_zone host o zones))
        (belongs host y && is_longer (some b) y) _ _
        (λ e. from_some y zones (λ x n. lower x (tail n)) h)
        (λ e.
          let (best, q, l, m) = from_some b zones (λ x n. lower x (tail n)) fits in
          let k = shorter_name b y (lower y (head refl)) (second_false (belongs host y) _ h e) in
          (best, q, omega arith, m))

  from_any :
      (o : Option Zone) (z : Zone) (zones : List Zone)
      → AllLower zones
      → Fits host o
      → Memᴰ z zones
      → belongs host z ≡ true
      → AtLeast host z (best_zone host o zones)
  unfolding best_zone
  from_any o z [] lower fits m h = elim m [ ]
  from_any o z (y ∷ zones) lower fits (head e) h =
      subst
        (λ x.
          AtLeast host x
            (best_zone host (if belongs host y && is_longer o y then some y else o) zones))
        (sym e) (at_first o y zones lower fits (rw e at h))
  from_any o z (y ∷ zones) lower fits (tail n) h =
      from_any (if belongs host y && is_longer o y then some y else o) z zones
        (λ x k. lower x (tail k))
        (if_split {A = Option Zone} (Fits host) (belongs host y && is_longer o y) _ _
          (λ e. (both_true (belongs host y) _ e).0) (λ e. fits))
        n h

-- Among zones with their names in lower case, ZoneFor finds a zone for a hostname whenever one of
-- them is the host or has it below it, and the one found has a name at least as long as each of these.
pub zone_for-longest :
    (zones : List Zone) (hostname : String) (z : Zone)
    → AllLower zones
    → Memᴰ z zones
    → belongs (to_lower (trim_space hostname)) z ≡ true
    → AtLeast (to_lower (trim_space hostname)) z (zone_for zones hostname)
unfolding zone_for
zone_for-longest zones hostname z lower m h =
    from_any (to_lower (trim_space hostname)) none z zones lower tt m h
