-- ===== src/Http/Chunked/Sizes.antt =====
-- The size lines of a chunked body: `stream_chunked` of enclave/src/main.rs reads the number that
-- their hexadecimal digits state.
use proof_of_observation.Base.{
  ℕ, ◌+◌, ◌*◌, ◌^◌, ◌≤◌, ◌<◌, ◌≡◌, ◌≢◌, refl, sym, ap, subst, ◌∙◌, Bool, true, false, some, List,
  [], ◌∷◌, ◌++◌, append-nil, arith, Bytes, All, ltb, ◌==◌, if◌then◌else◌,
}
use proof_of_observation.Text.{
  Text, trim, trim_start, trim_start_matches, trim_end, split_on, extend_first, is_whitespace,
}
use proof_of_observation.Text.Utf8.{from_utf8_lossy}
use proof_of_observation.Text.Utf8.Lossy.{lossy-ascii}
use proof_of_observation.Http.Find.{NoCr}
use proof_of_observation.Http.Chunked.{
  digit_of, hex_value, from_str_radix_16, first_part, chunk_size,
}

-- The character of a digit, in upper or lower case.
abbrev pub hex_char : Bool → ℕ → ℕ
hex_char upper d = if ltb d 10 then 48 + d else if upper then 55 + d else 87 + d

abbrev pub hex_chars : Bool → List ℕ → Bytes
hex_chars upper [] = []
hex_chars upper (d ∷ ds) = hex_char upper d ∷ hex_chars upper ds

-- The number that digits state behind `acc`.
abbrev pub hex_number : ℕ → List ℕ → ℕ
hex_number acc [] = acc
hex_number acc (d ∷ ds) = hex_number (acc * 16 + d) ds

-- Nothing, or a chunk extension.
pub data IsExtension : Bytes → Type 0 where
  no_extension : IsExtension []
  extension : (q : Bytes) → NoCr q → IsExtension (b';' ∷ q)

-- The line is the hexadecimal digits of the number, at least one, and an extension or none.
pub record States (line : Bytes) (n : ℕ) : Type 0 where
  pub upper : Bool
  pub first : ℕ
  pub digits : List ℕ
  pub behind : Bytes
  pub text : line ≡ hex_chars upper (first ∷ digits) ++ behind
  pub below : All (λ d. d < 16) (first ∷ digits)
  pub value : hex_number 0 (first ∷ digits) ≡ n
  pub end : IsExtension behind

-- What the reading relies on for the character of a digit.
abbrev Legible : ℕ → Type 0
Legible c =
    (c < 0x80)
    × (is_whitespace c ≡ false)
    × ((c == b';') ≡ false)
    × ((c == b'+') ≡ false)
    × (c ≢ 13)

hex_char-Legible : (upper : Bool) (d : ℕ) → d < 16 → Legible (hex_char upper d)
unfolding is_whitespace
hex_char-Legible upper d h =
    (ground arith, ground arith, ground arith, ground arith, λ e. ground arith)

digit_of-hex_char : (upper : Bool) (d : ℕ) → d < 16 → digit_of (hex_char upper d) ≡ some d
unfolding digit_of
digit_of-hex_char upper d h = ground arith

hex_chars-Legible :
    (upper : Bool) (ds : List ℕ) → All (λ d. d < 16) ds → All Legible (hex_chars upper ds)
hex_chars-Legible upper [] h = tt
hex_chars-Legible upper (d ∷ ds) h = (hex_char-Legible upper d h.0, hex_chars-Legible upper ds h.1)

hex_number_le : (acc : ℕ) (ds : List ℕ) → acc ≤ hex_number acc ds
hex_number_le acc [] = omega arith
hex_number_le acc (d ∷ ds) = omega (arith, hex_number_le (acc * 16 + d) ds)

hex_value-hex_chars :
    (upper : Bool) (acc : ℕ) (ds : List ℕ)
    → All (λ d. d < 16) ds
    → hex_number acc ds < 2 ^ 64
    → hex_value acc (hex_chars upper ds) ≡ some (hex_number acc ds)
unfolding hex_value
hex_value-hex_chars upper acc [] h fits = refl
hex_value-hex_chars upper acc (d ∷ ds) h fits =
    let small : ltb (acc * 16 + d) (2 ^ 64) ≡ true =
      ground (arith, hex_number_le (acc * 16 + d) ds) in
    rw (digit_of-hex_char upper d h.0, small) (hex_value-hex_chars upper (acc * 16 + d) ds h.1 fits)

radix-hex_chars :
    (upper : Bool) (d : ℕ) (ds : List ℕ)
    → All (λ d. d < 16) (d ∷ ds)
    → hex_number 0 (d ∷ ds) < 2 ^ 64
    → from_str_radix_16 (hex_chars upper (d ∷ ds)) ≡ some (hex_number 0 (d ∷ ds))
unfolding from_str_radix_16
radix-hex_chars upper d [] h fits =
    let p = hex_char-Legible upper d h.0 in rw p.3 (hex_value-hex_chars upper 0 (d ∷ []) h fits)
radix-hex_chars upper d (e ∷ ds) h fits =
    let p = hex_char-Legible upper d h.0 in
    rw p.3 (hex_value-hex_chars upper 0 (d ∷ (e ∷ ds)) h fits)

lossy_plain : (s q : Bytes) → All Legible s → from_utf8_lossy (s ++ q) ≡ s ++ from_utf8_lossy q
unfolding from_utf8_lossy
lossy_plain [] q h = refl
lossy_plain (c ∷ s) q h = lossy-ascii [] c (s ++ q) h.0.0 ∙ ap (λ z. c ∷ z) (lossy_plain s q h.1)

trim_end_cons : (c : ℕ) (s : Text) → is_whitespace c ≡ false → trim_end (c ∷ s) ≡ c ∷ trim_end s
unfolding trim_end
trim_end_cons c s h = ground (arith, h)

trim_end_plain : (s q : Text) → All Legible s → trim_end (s ++ q) ≡ s ++ trim_end q
unfolding trim_end
trim_end_plain [] q h = refl
trim_end_plain (c ∷ s) q h =
    trim_end_cons c (s ++ q) h.0.1 ∙ ap (λ z. c ∷ z) (trim_end_plain s q h.1)

trim_start_plain : (c : ℕ) (s : Text) → is_whitespace c ≡ false → trim_start (c ∷ s) ≡ c ∷ s
unfolding trim_start trim_start_matches
trim_start_plain c s h = rw h refl

-- The first part, or nothing.
abbrev front : List Text → Text
front [] = []
front (part ∷ parts) = part

extend_first-front : (c : ℕ) (parts : List Text) → front (extend_first c parts) ≡ c ∷ front parts
extend_first-front c [] = refl
extend_first-front c (part ∷ parts) = refl

extend_first-front_part :
    (c : ℕ) (parts : List Text) → first_part (extend_first c parts) ≡ c ∷ front parts
extend_first-front_part c [] = refl
extend_first-front_part c (part ∷ parts) = refl

-- The first part of a split at `;`.
split_plain : (s q : Text) → All Legible s → front (split_on b';' (s ++ (b';' ∷ q))) ≡ s
unfolding split_on
split_plain [] q h = refl
split_plain (c ∷ s) q h =
    rw h.0.2 (
      extend_first-front c (split_on b';' (s ++ (b';' ∷ q)))
      ∙ ap (λ z. c ∷ z) (split_plain s q h.1))

split_plain_first :
    (c : ℕ) (s q : Text)
    → All Legible (c ∷ s)
    → first_part (split_on b';' ((c ∷ s) ++ (b';' ∷ q))) ≡ c ∷ s
unfolding split_on
split_plain_first c s q h = rw h.0.2 (
    extend_first-front_part c (split_on b';' (s ++ (b';' ∷ q)))
    ∙ ap (λ z. c ∷ z) (split_plain s q h.1))

split_whole : (s : Text) → All Legible s → split_on b';' s ≡ s ∷ []
unfolding split_on
split_whole [] h = refl
split_whole (c ∷ s) h = rw (h.0.2, split_whole s h.1) refl

trim_hex : (c : ℕ) (s q : Text) → All Legible (c ∷ s) → trim ((c ∷ s) ++ q) ≡ (c ∷ s) ++ trim_end q
unfolding trim
trim_hex c s q h = ap trim_end (trim_start_plain c (s ++ q) h.0.1) ∙ trim_end_plain (c ∷ s) q h

trim_whole : (c : ℕ) (s : Text) → All Legible (c ∷ s) → trim (c ∷ s) ≡ c ∷ s
unfolding trim_end
trim_whole c s h = ap trim (sym (append-nil (c ∷ s))) ∙ trim_hex c s [] h ∙ append-nil (c ∷ s)

semicolon_stays : is_whitespace b';' ≡ false
unfolding is_whitespace
semicolon_stays = refl

-- What stands before an extension, as the code cuts the line.
cut_line :
    (c : ℕ) (s behind : Bytes)
    → All Legible (c ∷ s)
    → IsExtension behind
    → first_part (split_on b';' (trim (from_utf8_lossy ((c ∷ s) ++ behind)))) ≡ c ∷ s
unfolding from_utf8_lossy trim_end
cut_line c s behind h no_extension =
    ap (λ z. first_part (split_on b';' (trim z))) (lossy_plain (c ∷ s) [] h)
    ∙ ap (λ z. first_part (split_on b';' z)) (trim_hex c s [] h)
    ∙ ap (λ z. first_part (split_on b';' z)) (append-nil (c ∷ s))
    ∙ ap first_part (split_whole (c ∷ s) h)
cut_line c s behind h (extension q clean) =
    ap (λ z. first_part (split_on b';' (trim z))) (lossy_plain (c ∷ s) (b';' ∷ q) h)
    ∙ ap (λ z. first_part (split_on b';' z)) (trim_hex c s (from_utf8_lossy (b';' ∷ q)) h)
    ∙ ap (λ z. first_part (split_on b';' ((c ∷ s) ++ trim_end z)))
        (lossy-ascii [] b';' q (omega arith))
    ∙ ap (λ z. first_part (split_on b';' ((c ∷ s) ++ z)))
        (trim_end_cons b';' (from_utf8_lossy q) semicolon_stays)
    ∙ split_plain_first c s (trim_end (from_utf8_lossy q)) h

pub States-chunk_size :
    (line : Bytes) (n : ℕ) → n < 2 ^ 64 → States line n → chunk_size line ≡ some n
unfolding chunk_size
States-chunk_size line n fits st =
    let p = hex_chars-Legible st.upper (st.first ∷ st.digits) st.below in
    let c = hex_char st.upper st.first in
    let s = hex_chars st.upper st.digits in
    ap (λ z. from_str_radix_16 (trim (first_part (split_on b';' (trim (from_utf8_lossy z))))))
      st.text
    ∙ ap (λ z. from_str_radix_16 (trim z)) (cut_line c s st.behind p st.end)
    ∙ ap from_str_radix_16 (trim_whole c s p)
    ∙ radix-hex_chars st.upper st.first st.digits st.below (omega (arith, st.value))
    ∙ ap some st.value

Legible-NoCr : (s behind : Bytes) → All Legible s → IsExtension behind → NoCr (s ++ behind)
Legible-NoCr [] behind h no_extension = tt
Legible-NoCr [] behind h (extension q clean) = (λ e. omega arith, clean)
Legible-NoCr (c ∷ s) behind h e = (h.0.4, Legible-NoCr s behind h.1 e)

pub States-NoCr : (line : Bytes) (n : ℕ) → States line n → NoCr line
States-NoCr line n st = subst NoCr (sym st.text) (
    Legible-NoCr (hex_chars st.upper (st.first ∷ st.digits)) st.behind
      (hex_chars-Legible st.upper (st.first ∷ st.digits) st.below) st.end)
