-- ===== src/Text/Utf8/Lossy.antt =====
-- `String::from_utf8_lossy` and ASCII characters: such a byte ends whatever stands before it, and no
-- other bytes are read as one. So the lossy reading of a text is that of its lines.
use proof_of_observation.Base.{
  ℕ, zero, suc, ◌≤◌, ◌<◌, ◌≡◌, refl, sym, ap, ◌∙◌, ◌⊎◌, inl, inr, [], ◌∷◌, ◌++◌, Bytes, arith,
  length, drop, length-drop,
}
use proof_of_observation.Text.Utf8.{
  Step, char, bad, second_of_three, second_of_four, two, three, four, decode_step, shown, lossy,
  from_utf8_lossy,
}

-- The step before an ASCII byte is the step at the end of the bytes, with more behind it.
abbrev with_more : Bytes → Step → Step
with_more more (char c rest) = char c (rest ++ more)
with_more more (bad rest) = bad (rest ++ more)

two-ascii :
    (b : ℕ) (r : Bytes) (a : ℕ) (q : Bytes)
    → a < 0x80
    → two b (r ++ (a ∷ q)) ≡ with_more (a ∷ q) (two b r)
unfolding two
two-ascii b [] a q h = ground arith
two-ascii b (c ∷ r) a q h = ground arith

three-ascii :
    (b : ℕ) (r : Bytes) (a : ℕ) (q : Bytes)
    → a < 0x80
    → three b (r ++ (a ∷ q)) ≡ with_more (a ∷ q) (three b r)
unfolding three second_of_three
three-ascii b [] a [] h = ground arith
three-ascii b [] a (d ∷ q) h = ground arith
three-ascii b (c ∷ []) a q h = ground arith
three-ascii b (c ∷ (d ∷ r)) a q h = ground arith

four-ascii :
    (b : ℕ) (r : Bytes) (a : ℕ) (q : Bytes)
    → a < 0x80
    → four b (r ++ (a ∷ q)) ≡ with_more (a ∷ q) (four b r)
unfolding four second_of_four
four-ascii b [] a [] h = ground arith
four-ascii b [] a (d ∷ []) h = ground arith
four-ascii b [] a (d ∷ (e ∷ q)) h = ground arith
four-ascii b (c ∷ []) a [] h = ground arith
four-ascii b (c ∷ []) a (d ∷ q) h = ground arith
four-ascii b (c ∷ (d ∷ [])) a q h = ground arith
four-ascii b (c ∷ (d ∷ (e ∷ r))) a q h = ground arith

decode_step-ascii :
    (b : ℕ) (r : Bytes) (a : ℕ) (q : Bytes)
    → a < 0x80
    → decode_step b (r ++ (a ∷ q)) ≡ with_more (a ∷ q) (decode_step b r)
unfolding decode_step
decode_step-ascii b r a q h =
    ground (arith, two-ascii b r a q, three-ascii b r a q, four-ascii b r a q)

ascii_char : (a : ℕ) (q : Bytes) → a < 0x80 → decode_step a q ≡ char a q
unfolding decode_step
ascii_char a q h = ground arith

-- What a step leaves: at most three bytes are gone.
abbrev pub Tail : Bytes → Bytes → Type 0
Tail rest r = (rest ≡ r) ⊎ ((rest ≡ drop 1 r) ⊎ ((rest ≡ drop 2 r) ⊎ (rest ≡ drop 3 r)))

two-Tail : (b : ℕ) (r : Bytes) → Tail (shown (two b r)).1 r
unfolding two
two-Tail b [] = inl refl
two-Tail b (c ∷ r) = ground arith

three-Tail : (b : ℕ) (r : Bytes) → Tail (shown (three b r)).1 r
unfolding three
three-Tail b [] = inl refl
three-Tail b (c ∷ []) = ground arith
three-Tail b (c ∷ (d ∷ r)) = ground arith

four-Tail : (b : ℕ) (r : Bytes) → Tail (shown (four b r)).1 r
unfolding four
four-Tail b [] = inl refl
four-Tail b (c ∷ []) = ground arith
four-Tail b (c ∷ (d ∷ [])) = ground arith
four-Tail b (c ∷ (d ∷ (e ∷ r))) = ground arith

pub decode_step-Tail : (b : ℕ) (r : Bytes) → Tail (shown (decode_step b r)).1 r
unfolding decode_step
decode_step-Tail b r = ground (arith, two-Tail b r, three-Tail b r, four-Tail b r)

-- A character that is read from more than one byte is not ASCII.
high_two : (b : ℕ) (r : Bytes) → 0xc2 ≤ b → 0x80 ≤ (shown (two b r)).0
unfolding two
high_two b [] h = omega arith
high_two b (c ∷ r) h = ground arith

high_three : (b : ℕ) (r : Bytes) → 0xe0 ≤ b → 0x80 ≤ (shown (three b r)).0
unfolding three second_of_three
high_three b [] h = omega arith
high_three b (c ∷ []) h = ground arith
high_three b (c ∷ (d ∷ r)) h = ground arith

high_four : (b : ℕ) (r : Bytes) → 0xf0 ≤ b → 0x80 ≤ (shown (four b r)).0
unfolding four second_of_four
high_four b [] h = omega arith
high_four b (c ∷ []) h = ground arith
high_four b (c ∷ (d ∷ [])) h = ground arith
high_four b (c ∷ (d ∷ (e ∷ r))) h = ground arith

abbrev pub Ascii : ℕ → Bytes → ℕ × Bytes → Type 0
Ascii b r front = (0x80 ≤ front.0) ⊎ ((front.0 ≡ b) × (front.1 ≡ r))

-- An ASCII character is its byte, and takes no other.
pub decode_step-Ascii : (b : ℕ) (r : Bytes) → Ascii b r (shown (decode_step b r))
unfolding decode_step
decode_step-Ascii b r = ground (arith, high_two b r, high_three b r, high_four b r)

pub Tail-length : (rest r : Bytes) → Tail rest r → length rest ≤ length r
Tail-length rest r (inl e) = omega (arith, ap (length {A = ℕ}) e)
Tail-length rest r (inr (inl e)) = omega (arith, ap (length {A = ℕ}) e, length-drop 1 r)
Tail-length rest r (inr (inr (inl e))) = omega (arith, ap (length {A = ℕ}) e, length-drop 2 r)
Tail-length rest r (inr (inr (inr e))) = omega (arith, ap (length {A = ℕ}) e, length-drop 3 r)

-- More fuel changes nothing.
lossy_fuel : (n m : ℕ) (b : Bytes) → length b ≤ n → length b ≤ m → lossy n b ≡ lossy m b
unfolding lossy
lossy_fuel n m [] h k = refl
lossy_fuel zero m (x ∷ r) h k = absurd (omega arith)
lossy_fuel (suc n) zero (x ∷ r) h k = absurd (omega arith)
lossy_fuel (suc n) (suc m) (x ∷ r) h k =
    let front = shown (decode_step x r) in
    let less = Tail-length front.1 r (decode_step-Tail x r) in
    ap (◌∷◌ front.0) (lossy_fuel n m front.1 (omega (arith, less)) (omega (arith, less)))

pub lossy_cons :
    (x : ℕ) (r : Bytes)
    → from_utf8_lossy (x ∷ r)
      ≡ (shown (decode_step x r)).0 ∷ from_utf8_lossy (shown (decode_step x r)).1
unfolding from_utf8_lossy lossy
lossy_cons x r =
    let front = shown (decode_step x r) in
    let less = Tail-length front.1 r (decode_step-Tail x r) in
    ap (◌∷◌ front.0) (lossy_fuel (length r) (length front.1) front.1 less (omega arith))

lossy_first : (a : ℕ) (q : Bytes) → a < 0x80 → from_utf8_lossy (a ∷ q) ≡ a ∷ from_utf8_lossy q
lossy_first a q h =
    lossy_cons a q ∙ ap (λ step. (shown step).0 ∷ from_utf8_lossy (shown step).1) (ascii_char a q h)

lossy_split :
    (n : ℕ) (step : Step) (l : Bytes) (a : ℕ) (q : Bytes)
    → ((r : Bytes)
        → length r ≤ n
        → from_utf8_lossy (r ++ (a ∷ q)) ≡ from_utf8_lossy r ++ (a ∷ from_utf8_lossy q))
    → length (shown step).1 ≤ n
    → (shown (with_more (a ∷ q) step)).0 ∷ from_utf8_lossy (shown (with_more (a ∷ q) step)).1
      ≡ ((shown step).0 ∷ from_utf8_lossy (shown step).1) ++ (a ∷ from_utf8_lossy q)
lossy_split n (char c rest) l a q ih k = ap (◌∷◌ c) (ih rest k)
lossy_split n (bad rest) l a q ih k = ap (◌∷◌ 0xfffd) (ih rest k)

lossy_ascii-fuel :
    (n : ℕ) (l : Bytes) (a : ℕ) (q : Bytes)
    → a < 0x80
    → length l ≤ n
    → from_utf8_lossy (l ++ (a ∷ q)) ≡ from_utf8_lossy l ++ (a ∷ from_utf8_lossy q)
unfolding from_utf8_lossy
lossy_ascii-fuel n [] a q h k = lossy_first a q h
lossy_ascii-fuel zero (x ∷ l) a q h k = absurd (omega arith)
lossy_ascii-fuel (suc n) (x ∷ l) a q h k =
    lossy_cons x (l ++ (a ∷ q))
    ∙ ap (λ step. (shown step).0 ∷ from_utf8_lossy (shown step).1) (decode_step-ascii x l a q h)
    ∙ lossy_split n (decode_step x l) l a q (λ r lt. lossy_ascii-fuel n r a q h lt)
        (omega (arith, Tail-length (shown (decode_step x l)).1 l (decode_step-Tail x l)))
    ∙ ap (λ z. z ++ (a ∷ from_utf8_lossy q)) (sym (lossy_cons x l))

-- An ASCII byte stands for itself, and what is before it is read as if it were alone.
pub lossy-ascii :
    (l : Bytes) (a : ℕ) (q : Bytes)
    → a < 0x80
    → from_utf8_lossy (l ++ (a ∷ q)) ≡ from_utf8_lossy l ++ (a ∷ from_utf8_lossy q)
lossy-ascii l a q h = lossy_ascii-fuel (length l) l a q h (omega arith)

-- A step that finds a character finds it again when more bytes come.
abbrev pub Stable : Bytes → Step → Step → Type 0
Stable more (char c rest) w = w ≡ char c (rest ++ more)
Stable more (bad rest) w = Unit

two-Stable : (b : ℕ) (r more : Bytes) → Stable more (two b r) (two b (r ++ more))
unfolding two
two-Stable b [] more = tt
two-Stable b (c ∷ r) more = ground arith

three-Stable : (b : ℕ) (r more : Bytes) → Stable more (three b r) (three b (r ++ more))
unfolding three second_of_three
three-Stable b [] more = tt
three-Stable b (c ∷ []) more = ground arith
three-Stable b (c ∷ (d ∷ r)) more = ground arith

four-Stable : (b : ℕ) (r more : Bytes) → Stable more (four b r) (four b (r ++ more))
unfolding four second_of_four
four-Stable b [] more = tt
four-Stable b (c ∷ []) more = ground arith
four-Stable b (c ∷ (d ∷ [])) more = ground arith
four-Stable b (c ∷ (d ∷ (e ∷ r))) more = ground arith

pub decode_step-Stable :
    (b : ℕ) (r more : Bytes) → Stable more (decode_step b r) (decode_step b (r ++ more))
unfolding decode_step
decode_step-Stable b r more =
    ground (arith, two-Stable b r more, three-Stable b r more, four-Stable b r more)
