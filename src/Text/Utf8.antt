-- ===== src/Text/Utf8.antt =====
-- UTF-8 as the standard library reads and writes it: `str::as_bytes`, `String::from_utf8` and
-- `String::from_utf8_lossy`. One decoding step serves both readers; a bad sequence gives up its
-- maximal valid start, which the lossy reader replaces by U+FFFD.
pub mod RoundTrip
pub mod Lossy
use proof_of_observation.Base.{
  ℕ, zero, suc, ◌+◌, ◌-◌, ◌*◌, ◌/◌, ◌%◌, ◌<◌, ◌⊎◌, Bool, ◌&&◌, Option, none, some, List, [], ◌∷◌,
  ◌++◌, Bytes, length, ltb, within, ◌==◌, if◌then◌else◌,
}

-- A Unicode scalar value: a code point that is no surrogate.
abbrev pub IsScalar : ℕ → Type 0
IsScalar c = (c < 0xd800) ⊎ ((0xdfff < c) × (c < 0x110000))

-- `char::encode_utf8`
unfoldable pub encode_char : ℕ → Bytes
encode_char c =
    if ltb c 0x80
    then c ∷ []
    else if ltb c 0x800
    then (0xc0 + c / 64) ∷ (0x80 + c % 64) ∷ []
    else if ltb c 0x10000
    then (0xe0 + c / 4096) ∷ (0x80 + c / 64 % 64) ∷ (0x80 + c % 64) ∷ []
    else (0xf0 + c / 262144) ∷ (0x80 + c / 4096 % 64) ∷ (0x80 + c / 64 % 64) ∷ (0x80 + c % 64) ∷ []

-- `as_bytes`
unfoldable pub as_bytes : List ℕ → Bytes
as_bytes [] = []
as_bytes (c ∷ t) = encode_char c ++ as_bytes t

pub data Step : Type 0 where
  char : ℕ → Bytes → Step
  bad : Bytes → Step

abbrev pub is_cont : ℕ → Bool
is_cont b = within 0x80 0xbf b

-- The second byte that may follow the first byte `b` of three, and of four.
unfoldable pub second_of_three : ℕ → ℕ → Bool
second_of_three b c =
    if b == 0xe0 then within 0xa0 0xbf c else if b == 0xed then within 0x80 0x9f c else is_cont c

unfoldable pub second_of_four : ℕ → ℕ → Bool
second_of_four b c =
    if b == 0xf0 then within 0x90 0xbf c else if b == 0xf4 then within 0x80 0x8f c else is_cont c

unfoldable pub two : ℕ → Bytes → Step
two b [] = bad []
two b (c ∷ r) = if is_cont c then char ((b - 0xc0) * 64 + (c - 0x80)) r else bad (c ∷ r)

unfoldable pub three : ℕ → Bytes → Step
unfolding second_of_three
three b [] = bad []
three b (c ∷ []) = if second_of_three b c then bad [] else bad (c ∷ [])
three b (c ∷ (d ∷ r)) =
    if second_of_three b c
    then (if is_cont d
        then char ((b - 0xe0) * 4096 + (c - 0x80) * 64 + (d - 0x80)) r
        else bad (d ∷ r))
    else bad (c ∷ d ∷ r)

unfoldable pub four : ℕ → Bytes → Step
four b [] = bad []
four b (c ∷ []) = if second_of_four b c then bad [] else bad (c ∷ [])
four b (c ∷ (d ∷ [])) =
    if second_of_four b c then (if is_cont d then bad [] else bad (d ∷ [])) else bad (c ∷ d ∷ [])
four b (c ∷ (d ∷ (e ∷ r))) =
    if second_of_four b c
    then (if is_cont d
        then (if is_cont e
            then char ((b - 0xf0) * 262144 + (c - 0x80) * 4096 + (d - 0x80) * 64 + (e - 0x80)) r
            else bad (e ∷ r))
        else bad (d ∷ e ∷ r))
    else bad (c ∷ d ∷ e ∷ r)

unfoldable pub decode_step : ℕ → Bytes → Step
decode_step b r =
    if ltb b 0x80
    then char b r
    else if within 0xc2 0xdf b
    then two b r
    else if within 0xe0 0xef b
    then three b r
    else if within 0xf0 0xf4 b
    then four b r
    else bad r

-- The fuel bounds the characters; every step takes a byte at least, so the length is enough.
abbrev cons_char : ℕ → Option (List ℕ) → Option (List ℕ)
cons_char c none = none
cons_char c (some t) = some (c ∷ t)

unfoldable pub strict : ℕ → Bytes → Option (List ℕ)
unfolding decode_step two three four second_of_four
strict fuel [] = some []
strict zero (b ∷ r) = none
strict (suc fuel) (b ∷ r) = elim (decode_step b r) [
  | char c rest ↦ cons_char c (strict fuel rest)
  | bad rest ↦ none
]

-- What the lossy reader takes for the step, and the bytes behind it.
abbrev pub shown : Step → ℕ × Bytes
shown (char c rest) = (c, rest)
shown (bad rest) = (0xfffd, rest)

unfoldable pub lossy : ℕ → Bytes → List ℕ
unfolding decode_step two three four second_of_four
lossy fuel [] = []
lossy zero (b ∷ r) = []
lossy (suc fuel) (b ∷ r) = let front = shown (decode_step b r) in front.0 ∷ lossy fuel front.1

-- `String::from_utf8`
unfoldable pub from_utf8 : Bytes → Option (List ℕ)
unfolding strict
from_utf8 b = strict (length b) b

-- `String::from_utf8_lossy`
unfoldable pub from_utf8_lossy : Bytes → List ℕ
unfolding lossy
from_utf8_lossy b = lossy (length b) b
