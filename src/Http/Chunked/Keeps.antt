-- ===== src/Http/Chunked/Keeps.antt =====
-- What a sink keeps through `stream_chunked` of enclave/src/main.rs.
use proof_of_observation.Base.{
  ℕ, zero, suc, ◌+◌, ◌%◌, ◌^◌, min, ◌≡◌, Bool, true, false, Bytes, length, take, drop, ltb, ◌==◌,
  if◌then◌else◌, Result, ok, err, ◌>>=◌, bind-eq-ok, ok_injective, subst,
}
use proof_of_observation.Http.Input.{Input, size}
use proof_of_observation.Http.Plain.{StreamError, max_resp, too_large}
use proof_of_observation.Http.Chunked.{
  chunk_body, chunks, stream_chunked, fill_line, fill_body, chunk_size, size_or_error, skip_crlf,
}

module _ {S : Type 0} (sink : S → Bytes → Result StreamError S) (P : S → Type 0)
    (keeps : (s s' : S) (b : Bytes) → P s → sink s b ≡ ok s' → P s') where
  abbrev Keeps : (ℕ → Bytes → Input → S → Result StreamError S) → Type 0
  Keeps loop =
      (total : ℕ) (buf : Bytes) (input : Input) (s final : S)
      → P s
      → loop total buf input s ≡ ok final
      → P final

  chunk_body-Kept :
      (again : ℕ → Bytes → Input → S → Result StreamError S) (n : ℕ)
      → Keeps again
      → Keeps (λ total buf input s. chunk_body sink again total n buf input s)
  unfolding chunk_body
  chunk_body-Kept again n h total buf input s final p e =
      go (n == 0) (ltb max_resp ((total + n) % 2 ^ 64)) e
    where
      body : Result StreamError S
      body = do
        (got, rest) ← fill_body (suc (size input)) ((n + 2) % 2 ^ 64) buf input
        s' ← sink s (take (min n (length got)) got)
        again ((total + n) % 2 ^ 64) (skip_crlf (drop (min n (length got)) got)) rest s'

      go :
          (last long : Bool)
          → (if last then ok s else if long then err too_large else body) ≡ ok final
          → P final
      go true long e = subst P (ok_injective s final e) p
      go false true e = cc
      go false false e =
          let (r, er, e₁) =
            bind-eq-ok (fill_body (suc (size input)) ((n + 2) % 2 ^ 64) buf input) _ e in
          let (s', es, e₂) = bind-eq-ok (sink s (take (min n (length r.0)) r.0)) _ e₁ in
          h ((total + n) % 2 ^ 64) (skip_crlf (drop (min n (length r.0)) r.0)) r.1 s' final
            (keeps s s' _ p es) e₂

  chunks-Kept : (fuel : ℕ) → Keeps (chunks sink fuel)
  unfolding chunks
  chunks-Kept zero total buf input s final p e = cc
  chunks-Kept (suc fuel) total buf input s final p e =
      let (r, er, e₁) = bind-eq-ok (fill_line (suc (size input)) buf input) _ e in
      let (n, en, e₂) = bind-eq-ok (size_or_error (chunk_size (take r.0.0 r.0.1))) _ e₁ in
      chunk_body-Kept (chunks sink fuel) n (chunks-Kept fuel) total (drop (r.0.0 + 2) r.0.1) r.1 s
        final p e₂

  -- What every call of the sink that succeeds keeps of its state holds of the state that an accepted
  -- chunked body ends in, if it held at first.
  pub stream_chunked-Kept :
      (buf : Bytes) (input : Input) (s final : S)
      → P s
      → stream_chunked sink buf input s ≡ ok final
      → P final
  unfolding stream_chunked
  stream_chunked-Kept buf input s final p e =
      chunks-Kept (suc (length buf + size input)) 0 buf input s final p e
