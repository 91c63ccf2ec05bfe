-- ===== src/Base/Text.antt =====
-- The functions of Go's `strings`, `strconv` and `fmt` that the program calls, on native texts.
-- Case mapping and white space are those of ASCII.
use Prim.Native.Nat.{ℕ, zero, suc, ◌+◌, ◌-◌, ◌/◌, ◌%◌}
use Prim.Native.Char.{Char, code}
use Prim.Native.String.{String, len, slice, find, char_at, ◌++◌}
use mathlib.Core.Bool.{Bool, true, false, ◌&&◌, ◌||◌}
use mathlib.Core.List.{List, [], ◌∷◌}
use text.Mathlib.Text.{◌==◌, starts_with}
use cftm.Base.Tests.{ltb, leb, nat_eq, if◌then◌else◌}

infixr 66 ◌<>◌
-- Go's `+` on texts
abbrev pub ◌<>◌ : String → String → String
s <> t = Prim.Native.String.◌++◌ s t

-- strings.HasPrefix
abbrev pub has_prefix : String → String → Bool
has_prefix s p = starts_with s p

-- strings.HasSuffix
unfoldable pub has_suffix : String → String → Bool
has_suffix s p = leb (len p) (len s) && slice s (len s - len p) (len s) == p

-- strings.Contains; `find` answers a place past the end where there is none
unfoldable pub contains : String → String → Bool
contains s t = leb (find s t) (len s)

abbrev pub is_upper : Char → Bool
is_upper c = leb b'A' (code c) && leb (code c) b'Z'

abbrev pub is_lower : Char → Bool
is_lower c = leb b'a' (code c) && leb (code c) b'z'

unfoldable pub lower_char : Char → Char
lower_char c = if is_upper c then char_at "abcdefghijklmnopqrstuvwxyz" (code c - b'A') else c

unfoldable pub upper_char : Char → Char
upper_char c = if is_lower c then char_at "ABCDEFGHIJKLMNOPQRSTUVWXYZ" (code c - b'a') else c

-- strings.ToLower
unfoldable pub to_lower : String → String
unfolding lower_char
to_lower String.[] = String.[]
to_lower (String.◌∷◌ c s) = String.◌∷◌ (lower_char c) (to_lower s)

-- strings.ToUpper
unfoldable pub to_upper : String → String
unfolding upper_char
to_upper String.[] = String.[]
to_upper (String.◌∷◌ c s) = String.◌∷◌ (upper_char c) (to_upper s)

-- strings.EqualFold
unfoldable pub equal_fold : String → String → Bool
equal_fold s t = to_lower s == to_lower t

unfoldable pub is_space : Char → Bool
is_space c = nat_eq (code c) 32 || leb 9 (code c) && leb (code c) 13

trim_left : String → String
trim_left String.[] = String.[]
trim_left (String.◌∷◌ c s) = let rest = trim_left s in if is_space c then rest else String.◌∷◌ c s

-- drops the spaces at the end: a space goes with an empty rest
trim_right : String → String
trim_right String.[] = String.[]
trim_right (String.◌∷◌ c s) =
    let rest = trim_right s in if is_space c && rest == "" then "" else String.◌∷◌ c rest

-- strings.TrimSpace
unfoldable pub trim_space : String → String
unfolding trim_left trim_right is_space
trim_space s = trim_right (trim_left s)

-- strings.Cut: the text before the first separator, the text after it, and whether there is one
unfoldable pub cut : String → String → String × String × Bool
unfolding contains
cut s sep =
    if contains s sep
    then (slice s 0 (find s sep), slice s (find s sep + len sep) (len s), true)
    else (s, "", false)

-- strings.Join
unfoldable pub join : List String → String → String
join [] sep = ""
join (x ∷ []) sep = x
join (x ∷ y ∷ xs) sep = x <> sep <> join (y ∷ xs) sep

digit : ℕ → String
digit n = slice "0123456789" n (n + 1)

-- The decimal digits of a number below 10 ^ fuel.
show_fuel : ℕ → ℕ → String
show_fuel zero n = ""
show_fuel (suc f) n =
    let more = show_fuel f (n / 10) in if ltb n 10 then digit n else more <> digit (n % 10)

-- `%d` of a number that is not negative; n < 10 ^ (n + 1), so the fuel is enough
unfoldable pub show_nat : ℕ → String
unfolding show_fuel digit
show_nat n = show_fuel (n + 1) n

escape_char : Char → String
escape_char c =
    if nat_eq (code c) 34
    then "\\\""
    else if nat_eq (code c) 92
    then "\\\\"
    else if nat_eq (code c) 10
    then "\\n"
    else if nat_eq (code c) 13
    then "\\r"
    else if nat_eq (code c) 9
    then "\\t"
    else String.◌∷◌ c String.[]

escape : String → String
escape String.[] = ""
escape (String.◌∷◌ c s) = escape_char c <> escape s

-- `%q` of a text of printable characters and the escapes \" \\ \n \r \t
unfoldable pub quote : String → String
unfolding escape escape_char
quote s = "\"" <> escape s <> "\""

-- s[:8] on a text of ASCII characters
unfoldable pub prefix_8 : String → String
prefix_8 s = slice s 0 8

abbrev pub byte_len : String → ℕ
byte_len s = len s

unfoldable pub all_chars : (Char → Bool) → String → Bool
all_chars p String.[] = true
all_chars p (String.◌∷◌ c s) = p c && all_chars p s

-- a character goes to the first of the texts
unfoldable pub onto_first : Char → List String → List String
onto_first c [] = String.◌∷◌ c String.[] ∷ []
onto_first c (l ∷ ls) = String.◌∷◌ c l ∷ ls

-- strings.Split at one ASCII character, given by its code
unfoldable pub split_at : ℕ → String → List String
split_at sep String.[] = String.[] ∷ []
split_at sep (String.◌∷◌ c s) =
    let rest = split_at sep s in if nat_eq (code c) sep then String.[] ∷ rest else onto_first c rest
