-- ===== src/Http/Chunked/Delivers.antt =====
-- What `stream_chunked` of enclave/src/main.rs hands to its sink.
use proof_of_observation.Base.{
  ℕ, zero, suc, ◌+◌, ◌%◌, ◌^◌, ◌≤◌, ◌<◌, min, ◌≡◌, refl, sym, ap, ◌∙◌, true, false, List, [], ◌∷◌,
  ◌++◌, append_assoc, append-nil, arith, Bytes, length, take, drop, length-append, ltb, Result, ok,
  length-drop, take-append-drop, take-append_short, drop-append_short, take-length_append,
  drop-length_append, All, ◌==◌,
}
use proof_of_observation.Text.{starts_with}
use proof_of_observation.Http.Find.{crlf, starts_with-append}
use proof_of_observation.Http.Input.{Input, segment, failure, size, arrives}
use proof_of_observation.Http.Plain.{StreamError, max_resp, record_sink}
use proof_of_observation.Http.Chunked.Sizes.{States, States-chunk_size, States-NoCr}
use proof_of_observation.Http.Chunked.{fill_body, skip_crlf, chunk_body, chunks, stream_chunked}
use proof_of_observation.Http.Chunked.Reads.{fill_line-ReadsLine, fill_body-ReadsBody}

-- The CR LF behind a chunk is skipped.
skip_crlf_lem :
    (b later next : Bytes) → 2 ≤ length b → b ++ later ≡ crlf ++ next → skip_crlf b ++ later ≡ next
unfolding skip_crlf
skip_crlf_lem b later next room e =
    let front : take 2 b ≡ crlf = sym (take-append_short 2 b later room) ∙ ap (take 2) e in
    let test : starts_with crlf b ≡ true =
      ap (starts_with crlf) (sym (take-append-drop 2 b) ∙ ap (λ z. z ++ drop 2 b) front)
      ∙ starts_with-append crlf (drop 2 b) in
    rw test (sym (drop-append_short 2 b later room) ∙ ap (drop 2) e)

-- A chunk: its size line, without the end, and its bytes.
abbrev pub Chunk : Type 0
Chunk = Bytes × Bytes

-- The size line states the number of the bytes, of which there is at least one.
pub record IsChunk (c : Chunk) : Type 0 where
  pub size : States c.0 (length c.1)
  pub filled : 0 < length c.1

-- The chunks as they are sent, in front of what follows them.
abbrev pub sent : List Chunk → Bytes → Bytes
sent [] last = last
sent (c ∷ cs) last = c.0 ++ (crlf ++ (c.1 ++ (crlf ++ sent cs last)))

abbrev pub payload : List Chunk → Bytes
payload [] = []
payload (c ∷ cs) = c.1 ++ payload cs

unfoldable pub count_of : List Chunk → ℕ
count_of [] = 0
count_of (c ∷ cs) = suc (count_of cs)

pub count_of-sent : (cs : List Chunk) (last : Bytes) → count_of cs ≤ length (sent cs last)
unfolding count_of
count_of-sent [] last = omega arith
count_of-sent ((l, d) ∷ cs) last = omega (
  arith,
  count_of-sent cs last,
  length-append l (crlf ++ (d ++ (crlf ++ sent cs last))),
  length-append d (crlf ++ sent cs last),
)

pub arrives-size : (input : Input) → length (arrives input) ≤ size input
unfolding arrives size
arrives-size [] = omega arith
arrives-size (failure k ∷ input) = omega arith
arrives-size (segment [] ∷ input) = omega arith
arrives-size (segment (x ∷ b) ∷ input) =
    omega (arith, arrives-size input, length-append b (arrives input))

-- The loop hands over the chunks that are in hand and still to come.
abbrev Delivers :
    (ℕ → Bytes → Input → Bytes → Result StreamError Bytes) → List Chunk → Bytes → Type 0
Delivers loop cs last =
    (total : ℕ) (buf : Bytes) (input : Input) (out : Bytes)
    → total + length (payload cs) ≤ max_resp
    → buf ++ arrives input ≡ sent cs last
    → loop total buf input out ≡ ok (out ++ payload cs)

-- The bytes of a chunk, and two more, are in hand.
chunk_step :
    (loop : ℕ → Bytes → Input → Bytes → Result StreamError Bytes) (d got : Bytes) (total : ℕ)
    (buf : Bytes) (input rest : Input) (out : Bytes)
    → 0 < length d
    → total + length d ≤ max_resp
    → fill_body (suc (size input)) (length d + 2) buf input ≡ ok (got, rest)
    → length d + 2 ≤ length got
    → take (length d) got ≡ d
    → chunk_body record_sink loop total (length d) buf input out
      ≡ loop (total + length d) (skip_crlf (drop (length d) got)) rest (out ++ d)
unfolding chunk_body
chunk_step loop d got total buf input rest out filled fits result enough taken =
    let n = length d in
    let some_bytes : (n == 0) ≡ false = ground arith in
    let sum : (total + n) % 2 ^ 64 ≡ total + n = omega arith in
    let in_bound : ltb max_resp (total + n) ≡ false = ground arith in
    let want : (n + 2) % 2 ^ 64 ≡ n + 2 = omega arith in
    let all_taken : min n (length got) ≡ n = omega (arith, enough) in
    rw (some_bytes, sum, in_bound, want, result, all_taken, taken) refl

-- One whole chunk is handed over, and the loop goes on behind it.
pub whole_chunk :
    (loop : ℕ → Bytes → Input → Bytes → Result StreamError Bytes) (d next : Bytes) (total : ℕ)
    (buf : Bytes) (input : Input) (out : Bytes)
    → 0 < length d
    → total + length d ≤ max_resp
    → buf ++ arrives input ≡ d ++ (crlf ++ next)
    → (b : Bytes) × (rest : Input) × (chunk_body record_sink loop total (length d) buf input out
        ≡ loop (total + length d) b rest (out ++ d))
      × (b ++ arrives rest ≡ next)
whole_chunk loop d next total buf input out filled fits e =
    let n = length d in
    let later = crlf ++ next in
    let r =
      fill_body-ReadsBody (suc (size input)) (n + 2) (d ++ later)
        (omega (arith, length-append d later)) buf input (omega arith) e in
    let taken : take n r.got ≡ d =
      sym (take-append_short n r.got (arrives r.rest) (omega (arith, r.enough)))
      ∙ ap (take n) r.kept
      ∙ take-length_append d later in
    let left : drop n r.got ++ arrives r.rest ≡ later =
      sym (drop-append_short n r.got (arrives r.rest) (omega (arith, r.enough)))
      ∙ ap (drop n) r.kept
      ∙ drop-length_append d later in
    (
      skip_crlf (drop n r.got),
      r.rest,
      chunk_step loop d r.got total buf input r.rest out filled fits r.result r.enough taken,
      skip_crlf_lem (drop n r.got) (arrives r.rest) next
          (omega (arith, r.enough, length-drop n r.got)) left,
    )

-- Behind the line that states the size, with that size.
pub sized_line :
    (fuel : ℕ) (total : ℕ) (buf : Bytes) (input : Input) (out line later : Bytes) (n : ℕ)
    → n < 2 ^ 64
    → States line n
    → buf ++ arrives input ≡ line ++ (crlf ++ later)
    → (b : Bytes) × (rest : Input) × (chunks record_sink (suc fuel) total buf input out
        ≡ chunk_body record_sink (chunks record_sink fuel) total n b rest out)
      × (b ++ arrives rest ≡ later)
unfolding chunks
sized_line fuel total buf input out line later n fits st e =
    let r =
      fill_line-ReadsLine (suc (size input)) line later (States-NoCr line n st) buf input
        (omega arith) e in
    (
      drop (length line + 2) r.got,
      r.rest,
      rw (r.result, r.taken, States-chunk_size line n fits st) refl,
      r.left,
    )

ends_here :
    (loop : ℕ → Bytes → Input → Bytes → Result StreamError Bytes) (total : ℕ) (b : Bytes)
    (rest : Input) (out : Bytes)
    → chunk_body record_sink loop total 0 b rest out ≡ ok out
unfolding chunk_body
ends_here loop total b rest out = refl

chunks-Delivers :
    (fuel : ℕ) (cs : List Chunk) (last later : Bytes)
    → count_of cs < fuel
    → All IsChunk cs
    → States last 0
    → Delivers (chunks record_sink fuel) cs (last ++ (crlf ++ later))
unfolding count_of
chunks-Delivers zero cs last later fits h st total buf input out bound e = absurd (omega arith)
chunks-Delivers (suc fuel) [] last later fits h st total buf input out bound e =
    let (b, rest, step, left) =
      sized_line fuel total buf input out last later 0 (omega arith) st e in
    step ∙ ends_here (chunks record_sink fuel) total b rest out ∙ ap ok (sym (append-nil out))
chunks-Delivers (suc fuel) (c ∷ cs) last later fits h st total buf input out bound e =
    let behind = last ++ (crlf ++ later) in
    let (b, rest, step, left) =
      sized_line fuel total buf input out c.0 (c.1 ++ (crlf ++ sent cs behind)) (length c.1)
        (omega (arith, length-append c.1 (payload cs))) h.0.size e in
    let count = length-append c.1 (payload cs) in
    let (b', rest', step', left') =
      whole_chunk (chunks record_sink fuel) c.1 (sent cs behind) total b rest out h.0.filled
        (omega arith) left in
    step
    ∙ step'
    ∙ chunks-Delivers fuel cs last later (omega arith) h.1 st (total + length c.1) b' rest'
        (out ++ c.1) (omega arith) left'
    ∙ ap ok (append_assoc out c.1 (payload cs))

-- If what has come and what arrives, in whatever pieces, is a body in chunks (each with a line that
-- states its length in hexadecimal digits, perhaps with an extension, in front of it, and a line end
-- behind it), then a line that states zero, and anything, and the chunks are at most MAX_RESP bytes
-- long together, then the sink is handed exactly the bytes of the chunks, in order.
pub stream_chunked_exact :
    (cs : List Chunk) (last later initial : Bytes) (input : Input)
    → All IsChunk cs
    → States last 0
    → length (payload cs) ≤ max_resp
    → initial ++ arrives input ≡ sent cs (last ++ (crlf ++ later))
    → stream_chunked record_sink initial input [] ≡ ok (payload cs)
unfolding stream_chunked
stream_chunked_exact cs last later initial input h st bound e =
    let behind = last ++ (crlf ++ later) in
    let count = ap length e in
    let whole = length-append initial (arrives input) in
    chunks-Delivers (suc (length initial + size input)) cs last later
      (omega (arith, count, whole, count_of-sent cs behind, arrives-size input)) h st 0 initial
      input [] (omega (arith, bound)) e
