-- ===== src/Http/Plain/OpenEnded.antt =====
-- `stream_plain` of enclave/src/main.rs without a content length: the body runs to the end of the
-- connection.
use proof_of_observation.Base.{
  ℕ, zero, suc, ◌+◌, ◌≤◌, ◌≡◌, sym, ap, ◌∙◌, inl, inr, none, [], ◌∷◌, ◌++◌, append_assoc,
  append-nil, arith, Bytes, length, length-append, ltb, if◌then◌else◌, Result, ok, Bool-cases,
}
use proof_of_observation.Http.Input.{
  unexpected_eof, connection_aborted, other, Input, Got, size, arrives, ReadView, ended, more,
  broken, read-view,
}
use proof_of_observation.Http.Plain.Delivers.{sink_some_record}
use proof_of_observation.Http.Plain.{
  max_resp, buffer, StreamError, open_ended, open_round, stream_plain, record_sink,
}

-- What a successful run has delivered is all that arrived.
abbrev Delivers : (ℕ → Input → Bytes → Result StreamError Bytes) → Type 0
Delivers loop =
    (total : ℕ) (input : Input) (out final : Bytes)
    → total ≤ max_resp
    → loop total input out ≡ ok final
    → (final ≡ out ++ arrives input) × (total + length (arrives input) ≤ max_resp)

open_round-Delivers :
    (loop : ℕ → Input → Bytes → Result StreamError Bytes) (total : ℕ) (input : Input)
    (out final : Bytes) {r : Got × Input}
    → Delivers loop
    → total ≤ max_resp
    → ReadView buffer input r
    → open_round record_sink loop total r out ≡ ok final
    → (final ≡ out ++ arrives input) × (total + length (arrives input) ≤ max_resp)
unfolding open_round
open_round-Delivers loop total input out final ih small (ended e) h = ground (arith, append-nil out)
open_round-Delivers loop total input out final ih small (broken {k = unexpected_eof} e) h =
    ground (arith, append-nil out)
open_round-Delivers loop total input out final ih small (broken {k = connection_aborted} e) h =
    ground (arith, append-nil out)
open_round-Delivers loop total input out final ih small (broken {k = other} e) h = cc
open_round-Delivers loop total input out final ih small (more {x} {b} {input'} split room less) h =
    elim (Bool-cases (ltb max_resp (total + length (x ∷ b)))) [
      | inl big ↦ cc (rw (big, if◌then◌else◌) at h)
      | inr fits ↦
          let count = ap length split ∙ length-append (x ∷ b) (arrives input') in
          let (same, bound) =
            ih (total + length (x ∷ b)) input' (out ++ (x ∷ b)) final (ground arith)
              (rw (fits, if◌then◌else◌) at h) in
          (
            same ∙ append_assoc out (x ∷ b) (arrives input') ∙ ap (λ z. out ++ z) (sym split),
            omega arith,
          )
    ]

open_ended-Delivers : (fuel : ℕ) → Delivers (open_ended record_sink fuel)
unfolding open_ended
open_ended-Delivers zero total input out final small h = cc
open_ended-Delivers (suc fuel) total input out final small h =
    open_round-Delivers (open_ended record_sink fuel) total input out final
      (open_ended-Delivers fuel) small (read-view buffer input (omega arith)) h

-- Without a content length, a body that is accepted is all that came with the head and then
-- arrived, and it is within the limit.
pub stream_plain_open :
    (initial : Bytes) (input : Input) (final : Bytes)
    → stream_plain record_sink none initial input [] ≡ ok final
    → (final ≡ initial ++ arrives input) × (length final ≤ max_resp)
unfolding stream_plain
stream_plain_open initial input final h = elim (Bool-cases (ltb max_resp (length initial))) [
  | inl big ↦ cc (rw (big, if◌then◌else◌) at h)
  | inr small ↦
      let (same, bound) =
        open_ended-Delivers (suc (size input)) (length initial) input initial final (ground arith)
          (rw (small, sink_some_record initial []) at h) in
      (same, rw same (omega (arith, length-append initial (arrives input))))
]
