-- ===== src/Text.antt =====
-- Rust's text: `String` and `&str` are sequences of Unicode scalar values, here lists of code
-- points, beside the UTF-8 conversions and the `str` methods of the standard library that
-- enclave/src uses (`as_bytes`, `from_utf8`, `from_utf8_lossy`, `trim`, `to_ascii_lowercase`, …).
pub mod Utf8
use Prim.Native.Char.{code}
use Prim.Native.String.{String}
use proof_of_observation.Base.{
  ℕ, zero, suc, ◌+◌, ◌-◌, Bool, true, false, ◌&&◌, ◌||◌, Option, none, some, List, [], ◌∷◌, ◌++◌,
  ltb, leb, ◌==◌, within, if◌then◌else◌, equal, length, ◌≡◌, refl,
}

abbrev pub Text : Type 0
Text = List ℕ

-- The code points of a literal.
abbrev pub lit : String → Text
lit String.[] = []
lit (String.◌∷◌ c s) = code c ∷ lit s

-- `u8::to_ascii_lowercase`, `u8::to_ascii_uppercase`
unfoldable pub lower : ℕ → ℕ
lower c = if within b'A' b'Z' c then c + 32 else c

unfoldable pub upper : ℕ → ℕ
upper c = if within b'a' b'z' c then c - 32 else c

unfoldable pub to_ascii_lowercase : Text → Text
unfolding lower
to_ascii_lowercase [] = []
to_ascii_lowercase (c ∷ s) = lower c ∷ to_ascii_lowercase s

unfoldable pub to_ascii_uppercase : Text → Text
unfolding upper
to_ascii_uppercase [] = []
to_ascii_uppercase (c ∷ s) = upper c ∷ to_ascii_uppercase s

unfoldable pub eq_ignore_ascii_case : Text → Text → Bool
unfolding to_ascii_lowercase
eq_ignore_ascii_case a b = equal (to_ascii_lowercase a) (to_ascii_lowercase b)

-- `char::is_whitespace`: the code points with the Unicode property White_Space.
unfoldable pub is_whitespace : ℕ → Bool
is_whitespace c =
    within 9 13 c
    || c == 32
    || c == 0x85
    || c == 0xa0
    || c == 0x1680
    || within 0x2000 0x200a c
    || within 0x2028 0x2029 c
    || c == 0x202f
    || c == 0x205f
    || c == 0x3000

-- `trim_start_matches` with a predicate
unfoldable pub trim_start_matches : (ℕ → Bool) → Text → Text
trim_start_matches p [] = []
trim_start_matches p (c ∷ s) = let rest = trim_start_matches p s in if p c then rest else c ∷ s

unfoldable pub trim_start : Text → Text
unfolding trim_start_matches is_whitespace
trim_start = trim_start_matches is_whitespace

-- `trim_end`: a character stays when one that is not white follows it, or it is not white itself.
unfoldable pub trim_end : Text → Text
unfolding is_whitespace
trim_end [] = []
trim_end (c ∷ s) = keep c (trim_end s)
  where
    keep : ℕ → Text → Text
    keep c [] = if is_whitespace c then [] else c ∷ []
    keep c (d ∷ r) = c ∷ d ∷ r

unfoldable pub trim : Text → Text
unfolding trim_start trim_end
trim s = trim_end (trim_start s)

abbrev pub is_empty : List ℕ → Bool
is_empty [] = true
is_empty (c ∷ s) = false

-- `strip_prefix`, `starts_with`, `contains`, `ends_with`
unfoldable pub strip_prefix : Text → Text → Option Text
strip_prefix [] s = some s
strip_prefix (p ∷ ps) [] = none
strip_prefix (p ∷ ps) (c ∷ s) = let rest = strip_prefix ps s in if p == c then rest else none

unfoldable pub starts_with : Text → Text → Bool
starts_with [] s = true
starts_with (p ∷ ps) [] = false
starts_with (p ∷ ps) (c ∷ s) = p == c && starts_with ps s

unfoldable pub contains : Text → Text → Bool
unfolding starts_with
contains needle [] = is_empty needle
contains needle (c ∷ s) = starts_with needle (c ∷ s) || contains needle s

unfoldable pub ends_with : Text → Text → Bool
ends_with suffix [] = is_empty suffix
ends_with suffix (c ∷ s) = equal suffix (c ∷ s) || ends_with suffix s

-- `split(sep)` on one character: the parts between the separators, at least one.
abbrev pub extend_first : ℕ → List Text → List Text
extend_first c [] = (c ∷ []) ∷ []
extend_first c (part ∷ parts) = (c ∷ part) ∷ parts

unfoldable pub split_on : ℕ → Text → List Text
split_on sep [] = [] ∷ []
split_on sep (c ∷ s) =
    let parts = split_on sep s in if c == sep then [] ∷ parts else extend_first c parts

-- `join(sep)`
unfoldable pub join : Text → List Text → Text
join sep [] = []
join sep (part ∷ []) = part
join sep (part ∷ (next ∷ rest)) = part ++ (sep ++ join sep (next ∷ rest))

-- `trim_end_matches(suffix)`: the suffix goes as often as it stands at the end. The fuel bounds the
-- copies, each of which has a character.
repeats : ℕ → Text → Text → Bool
repeats zero suffix s = is_empty s
repeats (suc n) suffix s = elim (strip_prefix suffix s) [
  | none ↦ is_empty s
  | some rest ↦ repeats n suffix rest
]

unfoldable pub trim_end_matches : Text → Text → Text
unfolding repeats strip_prefix
trim_end_matches suffix [] = []
trim_end_matches suffix (c ∷ s) =
    let rest = trim_end_matches suffix s in
    if repeats (suc (length s)) suffix (c ∷ s) then [] else c ∷ rest

trims :
    (trim_end_matches (lit "_delta") (lit "text_delta") ≡ lit "text")
    × (trim_end_matches (lit "_delta") (lit "a_delta_delta") ≡ lit "a")
    × (trim (lit " \t a b\n") ≡ lit "a b")
    × (split_on b';' (lit "a;;b") ≡ lit "a" ∷ [] ∷ lit "b" ∷ [])
unfolding trim_end_matches trim split_on
trims = (refl, refl, refl, refl)
