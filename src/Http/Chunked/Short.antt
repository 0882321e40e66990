-- ===== src/Http/Chunked/Short.antt =====
-- A response body in chunks that ends too early is refused by `stream_chunked` of enclave/src/main.rs.
use proof_of_observation.Base.{
  ℕ, zero, suc, ◌+◌, ◌≤◌, ◌<◌, ◌≡◌, refl, sym, ap, subst, ◌∙◌, Option, none, some, List, [], ◌∷◌,
  ◌++◌, append_assoc, arith, Bytes, length, length-append, Result, err, All, ◌>>=◌, ◌⊎◌, inl, inr,
}
use proof_of_observation.Http.Find.{find, crlf, find-extend}
use proof_of_observation.Http.Input.{
  ErrorKind, Input, Got, size, arrives, ReadView, ended, more, broken, read-view,
}
use proof_of_observation.Http.Plain.{
  StreamError, chunk_eof, read_failed, buffer, max_resp, record_sink,
}
use proof_of_observation.Http.Chunked.{
  Line, line_read, line_step, fill_line, chunks, stream_chunked,
}
use proof_of_observation.Http.Chunked.Delivers.{
  Chunk, IsChunk, sent, payload, count_of, count_of-sent, arrives-size, sized_line, whole_chunk,
}

-- The connection ended early, or failed.
abbrev pub Refused : {A : Type 0} → Result StreamError A → Type 0
Refused r = (r ≡ err chunk_eof) ⊎ ((k : ErrorKind) × (r ≡ err (read_failed k)))

-- No line end is in hand or arrives.
abbrev NoLine : ℕ → (Bytes → Input → Line) → Type 0
NoLine fuel loop =
    (buf : Bytes) (input : Input)
    → size input < fuel
    → find (buf ++ arrives input) crlf ≡ none
    → Refused (loop buf input)

line_read-NoLine :
    (loop : Bytes → Input → Line) (fuel : ℕ) (buf : Bytes) (input : Input) {g : Got × Input}
    → NoLine fuel loop
    → size input < suc fuel
    → find (buf ++ arrives input) crlf ≡ none
    → ReadView buffer input g
    → Refused (line_read loop buf g)
unfolding line_read
line_read-NoLine loop fuel buf input ih fits e (ended h) = inl refl
line_read-NoLine loop fuel buf input ih fits e (broken {k} h) = inr (k, refl)
line_read-NoLine loop fuel buf input ih fits e (more {x} {b} {input'} split room less) =
    ih (buf ++ (x ∷ b)) input' (omega arith) (
      ap (λ z. find z crlf)
        (append_assoc buf (x ∷ b) (arrives input') ∙ ap (λ z. buf ++ z) (sym split))
      ∙ e)

fill_line-NoLine : (fuel : ℕ) → NoLine fuel (fill_line fuel)
unfolding fill_line line_step
fill_line-NoLine zero buf input fits e = absurd (omega arith)
fill_line-NoLine (suc fuel) buf input fits e = go (fill_line-NoLine fuel) (find buf crlf) refl
  where
    go :
        NoLine fuel (fill_line fuel)
        → (o : Option ℕ) → find buf crlf ≡ o
        → Refused (line_step (fill_line fuel) buf input o)
    go ih (some p) h = let there = find-extend buf crlf (arrives input) p h in cc
    go ih none h =
        line_read-NoLine (fill_line fuel) fuel buf input ih fits e
          (read-view buffer input (omega arith))

bind-Refused :
    {A B : Type 0} (m : Result StreamError A) (f : A → Result StreamError B)
    → Refused m
    → Refused (m >>= f)
bind-Refused m f (inl e) = inl (ap (λ z. z >>= f) e)
bind-Refused m f (inr (k, e)) = inr (k, ap (λ z. z >>= f) e)

chunks_cut :
    (fuel : ℕ) (cs : List Chunk) (cut : Bytes) (total : ℕ) (buf : Bytes) (input : Input)
    (out : Bytes)
    → count_of cs < fuel
    → All IsChunk cs
    → find cut crlf ≡ none
    → total + length (payload cs) ≤ max_resp
    → buf ++ arrives input ≡ sent cs cut
    → Refused (chunks record_sink fuel total buf input out)
unfolding chunks count_of
chunks_cut zero cs cut total buf input out fits h none_in bound e = absurd (omega arith)
chunks_cut (suc fuel) [] cut total buf input out fits h none_in bound e =
    bind-Refused (fill_line (suc (size input)) buf input) _ (
      fill_line-NoLine (suc (size input)) buf input (omega arith)
        (ap (λ z. find z crlf) e ∙ none_in))
chunks_cut (suc fuel) (c ∷ cs) cut total buf input out fits h none_in bound e =
    let count = length-append c.1 (payload cs) in
    let (b, rest, step, left) =
      sized_line fuel total buf input out c.0 (c.1 ++ (crlf ++ sent cs cut)) (length c.1)
        (omega arith) h.0.size e in
    let (b', rest', step', left') =
      whole_chunk (chunks record_sink fuel) c.1 (sent cs cut) total b rest out h.0.filled
        (omega arith) left in
    subst Refused (sym (step ∙ step')) (
      chunks_cut fuel cs cut (total + length c.1) b' rest' (out ++ c.1) (omega arith) h.1 none_in
        (omega arith) left')

-- If what has come and what arrives, in whatever pieces, is chunks of at most MAX_RESP bytes together,
-- each with a line that states its length in front of it and a line end behind it, and then at most a
-- piece of a line without its end, then `stream_chunked` returns the error of an early end, or that
-- of a read that failed: the body is not accepted without the line of size zero.
pub stream_chunked_short :
    (cs : List Chunk) (cut initial : Bytes) (input : Input)
    → All IsChunk cs
    → find cut crlf ≡ none
    → length (payload cs) ≤ max_resp
    → initial ++ arrives input ≡ sent cs cut
    → Refused (stream_chunked record_sink initial input [])
unfolding stream_chunked
stream_chunked_short cs cut initial input h none_in bound e =
    let count = ap length e in
    let whole = length-append initial (arrives input) in
    chunks_cut (suc (length initial + size input)) cs cut 0 initial input []
      (omega (arith, count, whole, count_of-sent cs cut, arrives-size input)) h none_in
      (omega (arith, bound)) e
