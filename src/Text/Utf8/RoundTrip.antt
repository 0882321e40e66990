-- ===== src/Text/Utf8/RoundTrip.antt =====
-- Strict decoding inverts encoding, and accepts nothing but what encoding writes.
use proof_of_observation.Base.{
  ℕ, zero, suc, ◌+◌, ◌-◌, ◌*◌, ◌/◌, ◌%◌, ◌≤◌, ◌<◌, ◌⊎◌, inl, inr, ◌≡◌, refl, ap, ◌∙◌, Option, none,
  some, List, [], ◌∷◌, ◌++◌, arith, Bytes, All, length, length-append, true,
}
use proof_of_observation.Text.Utf8.{
  IsScalar, encode_char, as_bytes, Step, char, bad, decode_step, two, three, four, strict,
  from_utf8, cons_char, second_of_four,
}

-- The readers of two, three and four bytes on what the encoder writes.
two-encode :
    (c : ℕ) (rest : Bytes) → c < 0x800 → two (0xc0 + c / 64) ((0x80 + c % 64) ∷ rest) ≡ char c rest
unfolding two
two-encode c rest h = ground arith

three-encode :
    (c : ℕ) (rest : Bytes)
    → IsScalar c
    → 0x800 ≤ c
    → c < 0x10000
    → three (0xe0 + c / 4096) ((0x80 + c / 64 % 64) ∷ ((0x80 + c % 64) ∷ rest)) ≡ char c rest
unfolding three
three-encode c rest s lo hi = ground arith

four-encode :
    (c : ℕ) (rest : Bytes)
    → 0x10000 ≤ c
    → c < 0x110000
    → four
        (0xf0 + c / 262144)
        ((0x80 + c / 4096 % 64) ∷ ((0x80 + c / 64 % 64) ∷ ((0x80 + c % 64) ∷ rest)))
      ≡ char c rest
unfolding four second_of_four
four-encode c rest lo hi = ground arith

-- One step reads back one character, whatever follows it.
decode_step_ascii : (c : ℕ) (rest : Bytes) → c < 0x80 → decode_step c rest ≡ char c rest
unfolding decode_step
decode_step_ascii c rest h = ground arith

decode_step-two : (b : ℕ) (rest : Bytes) → 0xc2 ≤ b → b ≤ 0xdf → decode_step b rest ≡ two b rest
unfolding decode_step
decode_step-two b rest lo hi = ground arith

decode_step-three : (b : ℕ) (rest : Bytes) → 0xe0 ≤ b → b ≤ 0xef → decode_step b rest ≡ three b rest
unfolding decode_step
decode_step-three b rest lo hi = ground arith

decode_step-four : (b : ℕ) (rest : Bytes) → 0xf0 ≤ b → b ≤ 0xf4 → decode_step b rest ≡ four b rest
unfolding decode_step
decode_step-four b rest lo hi = ground arith

abbrev Read : Bytes → ℕ → Bytes → Type 0
Read [] c rest = ⊥
Read (b ∷ r) c rest = decode_step b r ≡ char c rest

decode_step-encode_char : (c : ℕ) (rest : Bytes) → IsScalar c → Read (encode_char c ++ rest) c rest
unfolding encode_char
decode_step-encode_char c rest h = ground (
  arith,
  decode_step_ascii c rest,
  decode_step-two (0xc0 + c / 64) ((0x80 + c % 64) ∷ rest),
  two-encode c rest,
  decode_step-three (0xe0 + c / 4096) ((0x80 + c / 64 % 64) ∷ ((0x80 + c % 64) ∷ rest)),
  three-encode c rest,
  decode_step-four (0xf0 + c / 262144)
      ((0x80 + c / 4096 % 64) ∷ ((0x80 + c / 64 % 64) ∷ ((0x80 + c % 64) ∷ rest))),
  four-encode c rest,
)

strict-step :
    (fuel : ℕ) (s : Bytes) (c : ℕ) (rest : Bytes)
    → Read s c rest
    → strict (suc fuel) s ≡ cons_char c (strict fuel rest)
strict-step fuel [] c rest h = absurd h
strict-step fuel (b ∷ r) c rest h = unfold strict in rw (h, strict)

length-encode_char : (c : ℕ) → 1 ≤ length (encode_char c)
unfolding encode_char
length-encode_char c = ground arith

strict-as_bytes :
    (t : List ℕ) (fuel : ℕ)
    → All IsScalar t
    → length (as_bytes t) ≤ fuel
    → strict fuel (as_bytes t) ≡ some t
unfolding as_bytes
strict-as_bytes [] fuel h le = unfold strict in refl
strict-as_bytes (c ∷ t) zero h le =
    absurd (omega (arith, length-append (encode_char c) (as_bytes t), length-encode_char c))
strict-as_bytes (c ∷ t) (suc fuel) h le =
    strict-step fuel _ c _ (decode_step-encode_char c (as_bytes t) h.0)
    ∙ ap (cons_char c) (
        strict-as_bytes t fuel h.1
          (omega (arith, length-append (encode_char c) (as_bytes t), length-encode_char c)))

-- A text of scalar values is read back from its bytes.
pub from_utf8-as_bytes : (t : List ℕ) → All IsScalar t → from_utf8 (as_bytes t) ≡ some t
unfolding from_utf8
from_utf8-as_bytes t h = strict-as_bytes t _ h (omega arith)

-- What the reader of each length takes for a character is the encoding of that character.
abbrev Encodes : ℕ → Bytes → ℕ → Bytes → Type 0
Encodes b r c rest = (b ∷ r ≡ encode_char c ++ rest) × IsScalar c

two-char :
    (b : ℕ) (r : Bytes) {c : ℕ} {rest : Bytes}
    → 0xc2 ≤ b
    → b ≤ 0xdf
    → two b r ≡ char c rest
    → Encodes b r c rest
unfolding two encode_char
two-char b [] lo hi h = ground arith
two-char b (x ∷ r) lo hi h = ground arith

three-char :
    (b : ℕ) (r : Bytes) {c : ℕ} {rest : Bytes}
    → 0xe0 ≤ b
    → b ≤ 0xef
    → three b r ≡ char c rest
    → Encodes b r c rest
unfolding three encode_char
three-char b [] lo hi h = ground arith
three-char b (x ∷ []) lo hi h = ground arith
three-char b (x ∷ (y ∷ r)) lo hi h = ground arith

-- The four bytes of a character, by its groups of bits.
encode_char_four :
    (p x y z : ℕ)
    → x < 64
    → y < 64
    → z < 64
    → 0x10000 ≤ p * 262144 + x * 4096 + y * 64 + z
    → encode_char (p * 262144 + x * 4096 + y * 64 + z)
      ≡ (0xf0 + p) ∷ (0x80 + x) ∷ (0x80 + y) ∷ (0x80 + z) ∷ []
unfolding encode_char
encode_char_four p x y z hx hy hz h = ground arith

second_of_four_range :
    (b x : ℕ)
    → 0xf0 ≤ b
    → b ≤ 0xf4
    → second_of_four b x ≡ true
    → (0x80 ≤ x)
      × (x ≤ 0xbf)
      × (0x10000 ≤ (b - 0xf0) * 262144 + (x - 0x80) * 4096)
      × ((b - 0xf0) * 262144 + (x - 0x80) * 4096 + 4096 ≤ 0x110000)
unfolding second_of_four
second_of_four_range b x lo hi h = ground arith

four-char :
    (b : ℕ) (r : Bytes) {c : ℕ} {rest : Bytes}
    → 0xf0 ≤ b
    → b ≤ 0xf4
    → four b r ≡ char c rest
    → Encodes b r c rest
unfolding four
four-char b [] lo hi h = ground arith
four-char b (x ∷ []) lo hi h = ground arith
four-char b (x ∷ (y ∷ [])) lo hi h = ground arith
four-char b (x ∷ (y ∷ (z ∷ r))) lo hi h = ground (
  arith,
  second_of_four_range b x lo hi,
  encode_char_four (b - 0xf0) (x - 0x80) (y - 0x80) (z - 0x80),
)

one-char : (b : ℕ) (r : Bytes) → b < 0x80 → Encodes b r b r
unfolding encode_char
one-char b r h = ground arith

decode_step-char :
    (b : ℕ) (r : Bytes) {c : ℕ} {rest : Bytes} → decode_step b r ≡ char c rest → Encodes b r c rest
unfolding decode_step
decode_step-char b r {c} {rest} h = ground (
  arith,
  one-char b r,
  two-char b r {c = c} {rest = rest},
  three-char b r {c = c} {rest = rest},
  four-char b r {c = c} {rest = rest},
)

Step-cases : (s : Step) → ((c : ℕ) × (r : Bytes) × (s ≡ char c r)) ⊎ ((r : Bytes) × (s ≡ bad r))
Step-cases (char c r) = inl (c, r, refl)
Step-cases (bad r) = inr (r, refl)

cons_char-eq_some :
    (c : ℕ) (o : Option (List ℕ)) {t : List ℕ}
    → cons_char c o ≡ some t
    → (u : List ℕ) × (o ≡ some u) × (t ≡ c ∷ u)
cons_char-eq_some c none h = cc
cons_char-eq_some c (some u) h = (u, refl, cc)

as_bytes-cons :
    (c : ℕ) (u : List ℕ) {s rest : Bytes}
    → s ≡ encode_char c ++ rest
    → IsScalar c
    → (rest ≡ as_bytes u) × All IsScalar u
    → (s ≡ as_bytes (c ∷ u)) × All IsScalar (c ∷ u)
unfolding as_bytes
as_bytes-cons c u now scalar h = (now ∙ ap (λ x. encode_char c ++ x) h.0, (scalar, h.1))

strict_sound : (fuel : ℕ) (s t : Bytes) → strict fuel s ≡ some t → (s ≡ as_bytes t) × All IsScalar t
unfolding strict
strict_sound fuel [] [] h = unfold as_bytes in (refl, tt)
strict_sound fuel [] (c ∷ t) h = cc
strict_sound zero (b ∷ r) t h = cc
strict_sound (suc fuel) (b ∷ r) t h = elim (Step-cases (decode_step b r)) [
  | inr (rest, e) ↦ cc (rw (e, strict) at h)
  | inl (c, rest, e) ↦
      let (u, p, q) = cons_char-eq_some c (strict fuel rest) (rw (e, strict) at h) in
      let (now, scalar) = decode_step-char b r e in
      rw q (as_bytes-cons c u now scalar (strict_sound fuel rest u p))
]

-- What the strict reader accepts is the encoding of the text that it returns.
pub as_bytes-from_utf8 : (s t : Bytes) → from_utf8 s ≡ some t → (s ≡ as_bytes t) × All IsScalar t
unfolding from_utf8
as_bytes-from_utf8 s t = strict_sound (length s) s t
