-- ===== src/Http/Plain/Ends.antt =====
-- The loops of `stream_plain` in enclave/src/main.rs come to an end.
use proof_of_observation.Base.{
  ℕ, zero, suc, ◌+◌, ◌-◌, ◌<◌, min, ◌≢◌, inl, inr, Option, none, some, [], ◌∷◌, arith, Bytes,
  length, take, ltb, if◌then◌else◌, Result, ok, err, ◌>>=◌, Bool-cases,
}
use proof_of_observation.Http.Input.{
  unexpected_eof, connection_aborted, other, Input, Got, size, ReadView, ended, more, broken,
  read-view,
}
use proof_of_observation.Http.Plain.{
  max_resp, buffer, StreamError, out_of_fuel, exact, exact_round, open_ended, open_round, sink_some,
  stream_plain,
}

-- The loop returns something else than the model's own error.
abbrev Ends : {S : Type 0} → (ℕ → Input → S → Result StreamError S) → ℕ → Type 0
Ends {S} loop fuel =
    (total : ℕ) (input : Input) (s : S) → size input < fuel → loop total input s ≢ err out_of_fuel

module _ {S : Type 0} (sink : S → Bytes → Result StreamError S)
    (refuses : (s : S) (b : Bytes) → sink s b ≢ err out_of_fuel) where
  sink_then :
      (s : S) (b : Bytes) (f : S → Result StreamError S)
      → ((s' : S) → f s' ≢ err out_of_fuel)
      → (sink s b >>= f) ≢ err out_of_fuel
  sink_then s b f h e = go (sink s b) (refuses s b) e
    where
      go : (r : Result StreamError S) → r ≢ err out_of_fuel → (r >>= f) ≢ err out_of_fuel
      go (ok s') n k = h s' k
      go (err x) n k = n (cc)

  open_round-Ends :
      (loop : ℕ → Input → S → Result StreamError S) (fuel total : ℕ) (input : Input) (s : S)
      {r : Got × Input}
      → Ends loop fuel
      → size input < suc fuel
      → ReadView buffer input r
      → open_round sink loop total r s ≢ err out_of_fuel
  unfolding open_round
  open_round-Ends loop fuel total input s ih fits (ended e) h = cc
  open_round-Ends loop fuel total input s ih fits (broken {k = unexpected_eof} e) h = cc
  open_round-Ends loop fuel total input s ih fits (broken {k = connection_aborted} e) h = cc
  open_round-Ends loop fuel total input s ih fits (broken {k = other} e) h = cc
  open_round-Ends loop fuel total input s ih fits (more {x} {b} {input'} split room less) h =
      elim (Bool-cases (ltb max_resp (total + length (x ∷ b)))) [
        | inl big ↦ cc (rw (big, if◌then◌else◌) at h)
        | inr small ↦
            sink_then s (x ∷ b) (λ s'. loop (total + length (x ∷ b)) input' s')
              (λ s'. ih (total + length (x ∷ b)) input' s' (omega arith))
              (rw (small, if◌then◌else◌) at h)
      ]

  open_ended-Ends : (fuel : ℕ) → Ends (open_ended sink fuel) fuel
  unfolding open_ended
  open_ended-Ends zero total input s fits h = absurd (omega arith)
  open_ended-Ends (suc fuel) total input s fits h =
      open_round-Ends (open_ended sink fuel) fuel total input s (open_ended-Ends fuel) fits
        (read-view buffer input (omega arith)) h

  exact_round-Ends :
      (loop : ℕ → Input → S → Result StreamError S) (fuel cl total : ℕ) (input : Input) (s : S)
      {r : Got × Input}
      → Ends loop fuel
      → size input < suc fuel
      → ReadView (min (cl - total) buffer) input r
      → exact_round sink loop cl total r s ≢ err out_of_fuel
  unfolding exact_round
  exact_round-Ends loop fuel cl total input s ih fits (ended e) h = cc
  exact_round-Ends loop fuel cl total input s ih fits (broken {k = unexpected_eof} e) h = cc
  exact_round-Ends loop fuel cl total input s ih fits (broken {k = connection_aborted} e) h = cc
  exact_round-Ends loop fuel cl total input s ih fits (broken {k = other} e) h = cc
  exact_round-Ends loop fuel cl total input s ih fits (more {x} {b} {input'} split room less) h =
      sink_then s (x ∷ b) (λ s'. loop (total + length (x ∷ b)) input' s')
        (λ s'. ih (total + length (x ∷ b)) input' s' (omega arith)) h

  exact-Ends : (fuel cl : ℕ) → Ends (exact sink fuel cl) fuel
  unfolding exact
  exact-Ends zero cl total input s fits h = absurd (omega arith)
  exact-Ends (suc fuel) cl total input s fits h = elim (Bool-cases (ltb total cl)) [
    | inl short ↦
        exact_round-Ends (exact sink fuel cl) fuel cl total input s (exact-Ends fuel cl) fits
          (read-view _ input (ground arith)) (rw (short, exact) at h)
    | inr full ↦ cc (rw (full, exact) at h)
  ]

  first_then :
      (b : Bytes) (s : S) (f : S → Result StreamError S)
      → ((s' : S) → f s' ≢ err out_of_fuel)
      → (sink_some sink b s >>= f) ≢ err out_of_fuel
  unfolding sink_some
  first_then [] s f h = h s
  first_then (x ∷ b) s f h = sink_then s (x ∷ b) f h

  -- Whatever arrives, in whatever pieces, and whatever the sink answers: the loop never gives
  -- up for lack of fuel, if the sink itself never answers so.
  pub stream_plain_ends :
      (cl : Option ℕ) (initial : Bytes) (input : Input) (s : S)
      → stream_plain sink cl initial input s ≢ err out_of_fuel
  unfolding stream_plain
  stream_plain_ends (some cl) initial input s h = elim (Bool-cases (ltb max_resp cl)) [
    | inl big ↦ cc (rw (big, if◌then◌else◌) at h)
    | inr small ↦
        first_then (take (min (length initial) cl) initial) s _
          (λ s'. exact-Ends (suc (size input)) cl _ input s' (omega arith))
          (rw (small, if◌then◌else◌) at h)
  ]
  stream_plain_ends none initial input s h = elim (Bool-cases (ltb max_resp (length initial))) [
    | inl big ↦ cc (rw (big, if◌then◌else◌) at h)
    | inr small ↦
        first_then initial s _
          (λ s'. open_ended-Ends (suc (size input)) (length initial) input s' (omega arith))
          (rw (small, if◌then◌else◌) at h)
  ]
