-- ===== src/Http/Input.antt =====
-- A connection that the code reads, as enclave/src/main.rs uses `Read`: what its calls of `read`
-- will find, in order. A call with a buffer of `n` bytes takes at most `n` bytes of the next
-- segment and leaves the rest of it; an empty segment, and the end of the list, is `Ok(0)`.
use proof_of_observation.Base.{
  ℕ, zero, suc, ◌+◌, ◌≤◌, ◌<◌, ◌≡◌, refl, sym, ap, ◌∙◌, List, [], ◌∷◌, ◌++◌, append_assoc, arith,
  Bytes, length, take, drop, length-drop, take-append-drop, length-take_le, leb, if◌then◌else◌,
}

-- `ErrorKind`, as far as the code tells its cases apart.
pub data ErrorKind : Type 0 where
  unexpected_eof connection_aborted other : ErrorKind

pub data Event : Type 0 where
  segment : Bytes → Event
  failure : ErrorKind → Event

abbrev pub Input : Type 0
Input = List Event

-- What one call of `read` returns; no bytes is the end of the stream.
pub data Got : Type 0 where
  bytes : Bytes → Got
  failed : ErrorKind → Got

unfoldable pub read : ℕ → Input → Got × Input
read n [] = (bytes [], [])
read n (failure k ∷ rest) = (failed k, rest)
read n (segment b ∷ rest) =
    if leb (length b) n then (bytes b, rest) else (bytes (take n b), segment (drop n b) ∷ rest)

-- The bytes that arrive before the stream first ends or fails.
abbrev pub arrives_after : Bytes → Bytes → Bytes
arrives_after [] later = []
arrives_after (x ∷ b) later = (x ∷ b) ++ later

unfoldable pub arrives : Input → Bytes
arrives [] = []
arrives (failure k ∷ rest) = []
arrives (segment b ∷ rest) = arrives_after b (arrives rest)

-- Each call of `read` that finds something shrinks this.
unfoldable pub size : Input → ℕ
size [] = 0
size (failure k ∷ rest) = suc (size rest)
size (segment b ∷ rest) = suc (length b + size rest)

arrives_after-append : (b later : Bytes) → 0 < length b → arrives_after b later ≡ b ++ later
arrives_after-append [] later h = absurd (omega arith)
arrives_after-append (x ∷ b) later h = refl

-- A segment that is longer than the buffer is cut.
cut_segment :
    (m : ℕ) (c later : Bytes)
    → m < length c
    → c ++ later ≡ take m c ++ arrives_after (drop m c) later
cut_segment m c later h =
    ap (λ z. z ++ later) (sym (take-append-drop m c))
    ∙ append_assoc (take m c) (drop m c) later
    ∙ ap (λ z. take m c ++ z)
        (sym (arrives_after-append (drop m c) later (omega (arith, length-drop m c))))

-- A call that returns bytes has taken them off what arrives, and at most as many as asked for.
pub read-bytes :
    (n : ℕ) (input : Input) (x : ℕ) (b : Bytes) (input' : Input)
    → read n input ≡ (bytes (x ∷ b), input')
    → (arrives input ≡ (x ∷ b) ++ arrives input')
      × (length (x ∷ b) ≤ n)
      × (size input' < size input)
unfolding read arrives size
read-bytes n [] x b input' h = ground arith
read-bytes n (failure k ∷ rest) x b input' h = ground arith
read-bytes n (segment [] ∷ rest) x b input' h = ground arith
read-bytes zero (segment (y ∷ c) ∷ rest) x b input' h = ground arith
read-bytes (suc m) (segment (y ∷ c) ∷ rest) x b input' h =
    ground (arith, cut_segment m c (arrives rest), length-drop m c, length-take_le m c)

-- A call with room that returns none has met the end of what arrives.
pub read-end :
    (n : ℕ) (input input' : Input) → 0 < n → read n input ≡ (bytes [], input') → arrives input ≡ []
unfolding read arrives
read-end n [] input' pos h = refl
read-end n (failure k ∷ rest) input' pos h = ground arith
read-end n (segment [] ∷ rest) input' pos h = refl
read-end (suc n) (segment (x ∷ b) ∷ rest) input' pos h = ground arith
read-end zero (segment (x ∷ b) ∷ rest) input' pos h = absurd (omega arith)

pub read-failed :
    (n : ℕ) (input input' : Input) (k : ErrorKind)
    → read n input ≡ (failed k, input')
    → arrives input ≡ []
unfolding read arrives
read-failed n [] input' k h = refl
read-failed n (failure j ∷ rest) input' k h = refl
read-failed n (segment b ∷ rest) input' k h = ground arith

-- The three outcomes of a call with room, each with what it says of what arrives.
pub data ReadView (n : ℕ) (input : Input) : Got × Input → Type 0 where
  ended : {input' : Input} → arrives input ≡ [] → ReadView n input (bytes [], input')
  more :
      {x : ℕ} {b : Bytes} {input' : Input}
      → arrives input ≡ (x ∷ b) ++ arrives input'
      → length (x ∷ b) ≤ n
      → size input' < size input
      → ReadView n input (bytes (x ∷ b), input')
  broken :
      {k : ErrorKind} {input' : Input} → arrives input ≡ [] → ReadView n input (failed k, input')

pub read-view : (n : ℕ) (input : Input) → 0 < n → ReadView n input (read n input)
read-view n input pos = go (read n input).0 (read n input).1 refl
  where
    go : (g : Got) (input' : Input) → read n input ≡ (g, input') → ReadView n input (g, input')
    go (bytes []) input' e = ended (read-end n input input' pos e)
    go (bytes (x ∷ b)) input' e =
        let (split, room, less) = read-bytes n input x b input' e in more split room less
    go (failed k) input' e = broken (read-failed n input input' k e)
