-- ===== src/Prober/Hostname.antt =====
-- hostnamePattern of internal/prober/prober.go: at least two labels of one to 63 letters, digits and
-- hyphens that neither start nor end with a hyphen, with dots between them.
use cftm.Base.{
  ◌-◌, String, Bool, true, false, ◌||◌, ◌&&◌, ◌≡◌, refl, leb, nat_eq, length, arith, List, [], ◌∷◌,
  if◌then◌else◌, inl, inr, Bool-cases,
}
use cftm.Base.Text.{all_chars, is_upper, is_lower}
use Prim.Native.Char.{Char, code}
use Prim.Native.String.{len, char_at}

abbrev pub is_alnum : Char → Bool
is_alnum c = is_upper c || is_lower c || leb b'0' (code c) && leb (code c) b'9'

abbrev pub is_label_char : Char → Bool
is_label_char c = is_alnum c || nat_eq (code c) b'-'

abbrev pub is_dot : Char → Bool
is_dot c = nat_eq (code c) b'.'

-- a character goes to the first of the labels
unfoldable pub to_first : Char → List String → List String
to_first c [] = String.◌∷◌ c String.[] ∷ []
to_first c (l ∷ ls) = String.◌∷◌ c l ∷ ls

-- the texts between the dots
unfoldable pub labels : String → List String
labels String.[] = String.[] ∷ []
labels (String.◌∷◌ c s) =
    let rest = labels s in if is_dot c then String.[] ∷ rest else to_first c rest

unfoldable pub is_label : String → Bool
is_label l =
    leb 1 (len l)
    && leb (len l) 63
    && is_alnum (char_at l 0)
    && is_alnum (char_at l (len l - 1))
    && all_chars is_label_char l

unfoldable pub all_labels : List String → Bool
all_labels [] = true
all_labels (l ∷ ls) = is_label l && all_labels ls

-- hostnamePattern.MatchString
unfoldable pub matches_hostname : String → Bool
matches_hostname s = leb 2 (length (labels s)) && all_labels (labels s)

abbrev pub is_host_char : Char → Bool
is_host_char c = is_label_char c || is_dot c

label_chars : List String → Bool
label_chars [] = true
label_chars (l ∷ ls) = all_chars is_label_char l && label_chars ls

label_chars-all_labels : (ls : List String) → all_labels ls ≡ true → label_chars ls ≡ true
unfolding all_labels label_chars is_label
label_chars-all_labels [] h = refl
label_chars-all_labels (l ∷ ls) h = ground (arith, label_chars-all_labels ls)

label_chars-to_first :
    (c : Char) (ls : List String)
    → label_chars (to_first c ls) ≡ true
    → (is_label_char c ≡ true) × (label_chars ls ≡ true)
unfolding label_chars to_first all_chars
label_chars-to_first c [] h = (ground arith, refl)
label_chars-to_first c (l ∷ ls) h = (ground arith, ground arith)

all_chars-labels : (s : String) → label_chars (labels s) ≡ true → all_chars is_host_char s ≡ true
unfolding label_chars labels all_chars
all_chars-labels String.[] h = refl
all_chars-labels (String.◌∷◌ c s) h = elim (Bool-cases (is_dot c)) [
  | inl e ↦
      and_true (rw e (or_true (is_label_char c))) (all_chars-labels s (rw (e, if◌then◌else◌) at h))
  | inr e ↦
      let (p, q) = label_chars-to_first c (labels s) (rw (e, if◌then◌else◌) at h) in
      and_true (rw p refl) (all_chars-labels s q)
]
  where
    or_true : (b : Bool) → (b || true) ≡ true
    or_true true = refl
    or_true false = refl

    and_true : {a b : Bool} → a ≡ true → b ≡ true → (a && b) ≡ true
    and_true h k = rw (h, k) refl

-- A hostname that the pattern accepts consists of letters, digits, hyphens and dots, so that the
-- address made of a scheme, the hostname and a path names that host.
pub matches_hostname-safe :
    (s : String) → matches_hostname s ≡ true → all_chars is_host_char s ≡ true
unfolding matches_hostname
matches_hostname-safe s h = all_chars-labels s (label_chars-all_labels (labels s) (ground arith))
