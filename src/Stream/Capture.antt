-- ===== src/Stream/Capture.antt =====
-- `capture_field_body` of enclave/src/main.rs: the body that is kept for the field claims, up to a
-- limit, with a flag that says whether it was cut.
use Prim.Native.Nat.{◌*◌}
use proof_of_observation.Base.{
  ℕ, zero, suc, ◌-◌, ◌≤◌, ◌<◌, ◌≡◌, refl, sym, ap, Bool, true, false, List, [], ◌∷◌, ◌++◌,
  append_assoc, append-nil, arith, Bytes, length, take, length-append, take-append_le,
  take-append_short, ltb, if◌then◌else◌, Bool-cases, inl, inr, subst,
}
use proof_of_observation.Stream.Framing.{joined}

abbrev pub max_field_claims_capture : ℕ
max_field_claims_capture = 8 * 1024 * 1024

pub record Captured : Type 0 where
  pub body : Bytes
  pub truncated : Bool

-- The chunk is cut at what remains of the limit `m`.
unfoldable pub capture_within : ℕ → Bytes → Captured → Captured
capture_within m chunk c =
    if c.truncated
    then c
    else if ltb (m - length c.body) (length chunk)
    then record { body = c.body ++ take (m - length c.body) chunk; truncated = true }
    else record c { body = c.body ++ chunk }

unfoldable pub capture_field_body : Bytes → Captured → Captured
unfolding capture_within
capture_field_body = capture_within max_field_claims_capture

unfoldable pub capture_all : List Bytes → Captured → Captured
unfolding capture_field_body
capture_all [] c = c
capture_all (chunk ∷ chunks) c = capture_all chunks (capture_field_body chunk c)

abbrev pub nothing_captured : Captured
nothing_captured = record { body = []; truncated = false }

-- What was captured of `all`.
data Captures (m : ℕ) (all : Bytes) : Captured → Type 0 where
  whole : length all ≤ m → Captures m all (record { body = all; truncated = false })
  cut : m < length all → Captures m all (record { body = take m all; truncated = true })

take_all : {A : Type 0} (n : ℕ) (xs : List A) → length xs ≤ n → take n xs ≡ xs
take_all zero [] h = refl
take_all (suc n) [] h = refl
take_all zero (x ∷ xs) h = absurd (omega arith)
take_all (suc n) (x ∷ xs) h = ap (◌∷◌ x) (take_all n xs (omega arith))

capture_within-Captures :
    (m : ℕ) (all chunk : Bytes) (c : Captured)
    → Captures m all c
    → Captures m (all ++ chunk) (capture_within m chunk c)
unfolding capture_within
capture_within-Captures m all chunk _ (cut h) =
    subst (λ z. Captures m (all ++ chunk) (record { body = z; truncated = true }))
      (take-append_short m all chunk (omega arith)) (cut (omega (arith, length-append all chunk)))
capture_within-Captures m all chunk _ (whole h) =
    elim (Bool-cases (ltb (m - length all) (length chunk))) [
      | inl long ↦
          rw (long, sym (take-append_le m all chunk h))
            (cut (ground (arith, length-append all chunk)))
      | inr short ↦ rw short (whole (ground (arith, length-append all chunk)))
    ]

capture_all-Captures :
    (chunks : List Bytes) (all : Bytes) (c : Captured)
    → Captures max_field_claims_capture all c
    → Captures max_field_claims_capture (all ++ joined chunks) (capture_all chunks c)
unfolding capture_all capture_field_body
capture_all-Captures [] all c h =
    subst (λ z. Captures max_field_claims_capture z c) (sym (append-nil all)) h
capture_all-Captures (chunk ∷ chunks) all c h =
    subst
      (λ z. Captures max_field_claims_capture z (capture_all chunks (capture_field_body chunk c)))
      (append_assoc all chunk (joined chunks))
      (capture_all-Captures chunks (all ++ chunk) (capture_field_body chunk c)
        (capture_within-Captures max_field_claims_capture all chunk c h))

Captures-body :
    {m : ℕ} {all : Bytes} {c : Captured}
    → Captures m all c
    → (c.body ≡ take m all) × (c.truncated ≡ ltb m (length all))
Captures-body {m} {all} (whole h) = (sym (take_all m all h), ground arith)
Captures-body {m} {all} (cut h) = (refl, ground arith)

-- However a body is cut into chunks, what is captured of it is its first 8 MiB, and the flag says
-- whether it is longer than that.
pub capture_all-take :
    (chunks : List Bytes)
    → ((capture_all chunks nothing_captured).body ≡ take max_field_claims_capture (joined chunks))
      × ((capture_all chunks nothing_captured).truncated
          ≡ ltb max_field_claims_capture (length (joined chunks)))
capture_all-take chunks =
    Captures-body (capture_all-Captures chunks [] nothing_captured (whole (omega arith)))
