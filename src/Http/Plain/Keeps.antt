-- ===== src/Http/Plain/Keeps.antt =====
-- A property of the sink's state that every call of the sink keeps holds after `stream_plain` of
-- enclave/src/main.rs.
use proof_of_observation.Base.{
  ℕ, zero, suc, ◌+◌, min, ◌≡◌, inl, inr, Option, none, some, [], ◌∷◌, Bytes, length, take, ltb,
  if◌then◌else◌, Result, ok, bind-eq-ok, subst, Bool-cases,
}
use proof_of_observation.Http.Input.{
  unexpected_eof, connection_aborted, other, Input, Got, bytes, failed, size,
}
use proof_of_observation.Http.Plain.{
  max_resp, StreamError, exact, exact_round, open_ended, open_round, sink_some, stream_plain,
}

ok-injective : {S : Type 0} (a b : S) → ◌≡◌ {A = Result StreamError S} (ok a) (ok b) → a ≡ b
ok-injective a b h = cc

module _ {S : Type 0} (sink : S → Bytes → Result StreamError S) (P : S → Type 0)
    (keeps : (s s' : S) (b : Bytes) → P s → sink s b ≡ ok s' → P s') where
  abbrev Kept : (ℕ → Input → S → Result StreamError S) → Type 0
  Kept loop =
      (total : ℕ) (input : Input) (s final : S) → P s → loop total input s ≡ ok final → P final

  exact_round-Kept :
      (loop : ℕ → Input → S → Result StreamError S) (cl total : ℕ) (r : Got × Input) (s final : S)
      → Kept loop
      → P s
      → exact_round sink loop cl total r s ≡ ok final
      → P final
  unfolding exact_round
  exact_round-Kept loop cl total (bytes [], input) s final ih p h = cc
  exact_round-Kept loop cl total (bytes (x ∷ b), input) s final ih p h =
      let (s', step, later) = bind-eq-ok (sink s (x ∷ b)) _ h in
      ih _ input s' final (keeps s s' (x ∷ b) p step) later
  exact_round-Kept loop cl total (failed unexpected_eof, input) s final ih p h = cc
  exact_round-Kept loop cl total (failed connection_aborted, input) s final ih p h = cc
  exact_round-Kept loop cl total (failed other, input) s final ih p h = cc

  exact-Kept : (fuel cl : ℕ) → Kept (exact sink fuel cl)
  unfolding exact
  exact-Kept zero cl total input s final p h = elim (Bool-cases (ltb total cl)) [
    | inl short ↦ cc (rw (short, exact) at h)
    | inr full ↦ subst P (ok-injective _ _ (rw (full, exact) at h)) p
  ]
  exact-Kept (suc fuel) cl total input s final p h = elim (Bool-cases (ltb total cl)) [
    | inl short ↦
        exact_round-Kept (exact sink fuel cl) cl total _ s final (exact-Kept fuel cl) p
          (rw (short, exact) at h)
    | inr full ↦ subst P (ok-injective _ _ (rw (full, exact) at h)) p
  ]

  open_round-Kept :
      (loop : ℕ → Input → S → Result StreamError S) (total : ℕ) (r : Got × Input) (s final : S)
      → Kept loop
      → P s
      → open_round sink loop total r s ≡ ok final
      → P final
  unfolding open_round
  open_round-Kept loop total (bytes [], input) s final ih p h = subst P (ok-injective _ _ h) p
  open_round-Kept loop total (bytes (x ∷ b), input) s final ih p h =
      elim (Bool-cases (ltb max_resp (total + length (x ∷ b)))) [
        | inl big ↦ cc (rw (big, if◌then◌else◌) at h)
        | inr small ↦
            let (s', step, later) =
              bind-eq-ok (sink s (x ∷ b)) _ (rw (small, if◌then◌else◌) at h) in
            ih _ input s' final (keeps s s' (x ∷ b) p step) later
      ]
  open_round-Kept loop total (failed unexpected_eof, input) s final ih p h =
      subst P (ok-injective _ _ h) p
  open_round-Kept loop total (failed connection_aborted, input) s final ih p h =
      subst P (ok-injective _ _ h) p
  open_round-Kept loop total (failed other, input) s final ih p h = cc

  open_ended-Kept : (fuel : ℕ) → Kept (open_ended sink fuel)
  unfolding open_ended
  open_ended-Kept zero total input s final p h = cc
  open_ended-Kept (suc fuel) total input s final p h =
      open_round-Kept (open_ended sink fuel) total _ s final (open_ended-Kept fuel) p h

  first-Kept : (b : Bytes) (s s' : S) → P s → sink_some sink b s ≡ ok s' → P s'
  unfolding sink_some
  first-Kept [] s s' p h = subst P (ok-injective _ _ h) p
  first-Kept (x ∷ b) s s' p h = keeps s s' (x ∷ b) p h

  -- What every call of the sink that succeeds keeps of its state holds of the state that an accepted
  -- body ends in, if it held at first.
  pub stream_plain-Kept :
      (cl : Option ℕ) (initial : Bytes) (input : Input) (s final : S)
      → P s
      → stream_plain sink cl initial input s ≡ ok final
      → P final
  unfolding stream_plain
  stream_plain-Kept (some cl) initial input s final p h = elim (Bool-cases (ltb max_resp cl)) [
    | inl big ↦ cc (rw (big, if◌then◌else◌) at h)
    | inr small ↦
        let first = take (min (length initial) cl) initial in
        let loop = exact sink (suc (size input)) cl in
        let (s', step, later) =
          bind-eq-ok (sink_some sink first s) (λ x. loop (length first) input x)
            (rw (small, if◌then◌else◌) at h) in
        exact-Kept (suc (size input)) cl (length first) input s' final
          (first-Kept first s s' p step) later
  ]
  stream_plain-Kept none initial input s final p h =
      elim (Bool-cases (ltb max_resp (length initial))) [
        | inl big ↦ cc (rw (big, if◌then◌else◌) at h)
        | inr small ↦
            let (s', step, later) =
              bind-eq-ok (sink_some sink initial s) _ (rw (small, if◌then◌else◌) at h) in
            open_ended-Kept (suc (size input)) _ input s' final (first-Kept initial s s' p step)
              later
      ]
