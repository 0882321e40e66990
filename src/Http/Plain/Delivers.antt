-- ===== src/Http/Plain/Delivers.antt =====
-- What `stream_plain` of enclave/src/main.rs hands to its sink.
use proof_of_observation.Base.{
  ℕ, zero, suc, ◌+◌, ◌-◌, ◌≤◌, ◌<◌, min, ◌≡◌, ◌≢◌, refl, sym, ap, ◌∙◌, inl, inr, false, some, [],
  ◌∷◌, ◌++◌, append_assoc, append-nil, arith, Bytes, length, take, length-append, ltb,
  if◌then◌else◌, Result, ok, ◌>>=◌, Bool-cases, ltb→lt, lt→ltb, take-append_le, take-append,
  take-min, length-take,
}
use proof_of_observation.Http.Input.{
  unexpected_eof, connection_aborted, other, Input, Got, size, arrives, ReadView, ended, more,
  broken, read-view,
}
use proof_of_observation.Http.Plain.{
  max_resp, buffer, StreamError, exact, exact_round, sink_some, stream_plain, record_sink,
}

-- The loop with a length delivers exactly the bytes that are missing.
abbrev Missing : (ℕ → Input → Bytes → Result StreamError Bytes) → ℕ → ℕ → Type 0
Missing loop fuel cl =
    (total : ℕ) (input : Input) (out : Bytes)
    → size input < fuel
    → cl ≤ total + length (arrives input)
    → loop total input out ≡ ok (out ++ take (cl - total) (arrives input))

exact_round_enough :
    (loop : ℕ → Input → Bytes → Result StreamError Bytes) (fuel cl total : ℕ) (input : Input)
    (out : Bytes) {r : Got × Input}
    → Missing loop fuel cl
    → size input < suc fuel
    → total < cl
    → cl ≤ total + length (arrives input)
    → ReadView (min (cl - total) buffer) input r
    → exact_round record_sink loop cl total r out ≡ ok (out ++ take (cl - total) (arrives input))
unfolding exact_round
exact_round_enough loop fuel cl total input out ih fits short enough (ended e) =
    absurd (omega (arith, ap length e))
exact_round_enough loop fuel cl total input out ih fits short enough (broken e) =
    absurd (omega (arith, ap length e))
exact_round_enough loop fuel cl total input out ih fits short enough
      (more {x} {b} {input'} split room less) =
    let count = ap length split ∙ length-append (x ∷ b) (arrives input') in
    let left : cl - total - length (x ∷ b) ≡ cl - (total + length (x ∷ b)) = omega arith in
    ih (total + length (x ∷ b)) input' (out ++ (x ∷ b)) (omega arith) (omega arith)
    ∙ ap ok (
        append_assoc out (x ∷ b) _
        ∙ ap (λ z. out ++ z)
            (rw split
              (sym (take-append_le (cl - total) (x ∷ b) (arrives input') (omega arith) ∙ rw left))))

exact_enough : (fuel cl : ℕ) → Missing (exact record_sink fuel cl) fuel cl
unfolding exact
exact_enough zero cl total input out fits enough = absurd (omega arith)
exact_enough (suc fuel) cl total input out fits enough = elim (Bool-cases (ltb total cl)) [
  | inl short ↦
      rw (short, exact)
        (exact_round_enough (exact record_sink fuel cl) fuel cl total input out
          (exact_enough fuel cl) fits (ltb→lt total cl short) enough
          (read-view _ input (ground arith)))
  | inr full ↦
      let none_left : cl - total ≡ 0 = ground arith in rw (full, exact) (rw (none_left, append-nil))
]

abbrev Fails : (ℕ → Input → Bytes → Result StreamError Bytes) → ℕ → Type 0
Fails loop cl =
    (total : ℕ) (input : Input) (out final : Bytes)
    → total + length (arrives input) < cl
    → loop total input out ≢ ok final

exact_round_short :
    (loop : ℕ → Input → Bytes → Result StreamError Bytes) (cl total : ℕ) (input : Input)
    (out final : Bytes) {r : Got × Input}
    → Fails loop cl
    → total + length (arrives input) < cl
    → ReadView (min (cl - total) buffer) input r
    → exact_round record_sink loop cl total r out ≢ ok final
unfolding exact_round
exact_round_short loop cl total input out final ih short (ended e) h = cc
exact_round_short loop cl total input out final ih short (broken {k = unexpected_eof} e) h = cc
exact_round_short loop cl total input out final ih short (broken {k = connection_aborted} e) h = cc
exact_round_short loop cl total input out final ih short (broken {k = other} e) h = cc
exact_round_short loop cl total input out final ih short (more {x} {b} {input'} split room less) h =
    let count = ap length split ∙ length-append (x ∷ b) (arrives input') in
    ih (total + length (x ∷ b)) input' (out ++ (x ∷ b)) final (omega arith) h

exact_short : (fuel cl : ℕ) → Fails (exact record_sink fuel cl) cl
unfolding exact
exact_short zero cl total input out final short h = ground arith
exact_short (suc fuel) cl total input out final short h =
    exact_round_short (exact record_sink fuel cl) cl total input out final (exact_short fuel cl)
      short (read-view _ input (ground arith)) (rw (lt→ltb total cl (omega arith), exact) at h)

pub sink_some_record : (b o : Bytes) → sink_some record_sink b o ≡ ok (o ++ b)
unfolding sink_some
sink_some_record [] o = rw append-nil
sink_some_record (x ∷ b) o = refl

within_limit : (n : ℕ) → n ≤ max_resp → ltb max_resp n ≡ false
within_limit n h = ground arith

-- With a content length within the limit, the sink gets exactly that many bytes, the first of what
-- came with the head and then arrives, if there are that many.
pub stream_plain_exact :
    (cl : ℕ) (initial : Bytes) (input : Input)
    → cl ≤ max_resp
    → cl ≤ length (initial ++ arrives input)
    → stream_plain record_sink (some cl) initial input [] ≡ ok (take cl (initial ++ arrives input))
unfolding stream_plain
stream_plain_exact cl initial input small enough =
    let first = take (min (length initial) cl) initial in
    let size_first = length-take (min (length initial) cl) initial in
    let missing : cl - length first ≡ cl - length initial = omega arith in
    rw (within_limit cl small, sink_some_record first [], ◌>>=◌)
      (exact_enough (suc (size input)) cl (length first) input first (omega arith)
          (omega (arith, length-append initial (arrives input)))
        ∙ ap ok (rw (missing, take-min cl initial) (sym (take-append cl initial (arrives input)))))

-- With a content length that is not met, because the connection ends or fails first, the body is
-- refused: the sink's result is never returned.
pub stream_plain_short :
    (cl : ℕ) (initial : Bytes) (input : Input) (final : Bytes)
    → length (initial ++ arrives input) < cl
    → stream_plain record_sink (some cl) initial input [] ≢ ok final
unfolding stream_plain
stream_plain_short cl initial input final short h = elim (Bool-cases (ltb max_resp cl)) [
  | inl big ↦ cc (rw (big, if◌then◌else◌) at h)
  | inr small ↦
      let first = take (min (length initial) cl) initial in
      exact_short (suc (size input)) cl (length first) input first final
        (omega (
          arith,
          length-append initial (arrives input),
          length-take (min (length initial) cl) initial,
        ))
        (rw (small, sink_some_record first []) at h)
]
