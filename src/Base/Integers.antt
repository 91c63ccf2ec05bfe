-- ===== src/Base/Integers.antt =====
-- Integers, and the parsers of Go's `strconv` that the program calls.
use Prim.Native.Nat.{ℕ, zero, suc, ◌+◌, ◌*◌, ◌-◌, ◌^◌}
use Prim.Native.Char.{Char, code}
use Prim.Native.String.{String}
use mathlib.Core.Bool.{Bool, true, false, ◌&&◌, ◌||◌}
use mathlib.Core.Option.{Option, none, some}
use text.Mathlib.Text.{◌==◌}
use cftm.Base.Tests.{ltb, leb, nat_eq, if◌then◌else◌}

-- negsuc n is -(n + 1)
pub data ℤ : Type 0 where
  pos : ℕ → ℤ
  negsuc : ℕ → ℤ

abbrev is_digit : Char → Bool
is_digit c = leb b'0' (code c) && leb (code c) b'9'

-- the number whose digits follow those of `n`
unfoldable pub digits : ℕ → String → Option ℕ
digits n String.[] = some n
digits n (String.◌∷◌ c s) =
    let rest = digits (10 * n + (code c - b'0')) s in if is_digit c then rest else none

abbrev negated : ℕ → ℤ
negated zero = pos 0
negated (suc n) = negsuc n

signed : Bool → Option ℕ → Option ℤ
signed negative none = none
signed true (some n) = if leb n (2 ^ 63) then some (negated n) else none
signed false (some n) = if ltb n (2 ^ 63) then some (pos n) else none

-- strconv.Atoi, where an int has 64 bits
unfoldable pub atoi : String → Option ℤ
unfolding signed
atoi String.[] = none
atoi (String.◌∷◌ c s) =
    let unsigned = digits 0 (String.◌∷◌ c s) in
    let rest = digits 0 s in
    if nat_eq (code c) b'-'
    then (if s == "" then none else signed true rest)
    else if nat_eq (code c) b'+'
    then (if s == "" then none else signed false rest)
    else signed false unsigned

-- strconv.ParseBool
unfoldable pub parse_bool : String → Option Bool
parse_bool s =
    if s == "1" || s == "t" || s == "T" || s == "TRUE" || s == "true" || s == "True"
    then some true
    else if s == "0" || s == "f" || s == "F" || s == "FALSE" || s == "false" || s == "False"
    then some false
    else none
