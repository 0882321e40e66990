-- ===== src/Http/Plain.antt =====
-- `stream_plain` of enclave/src/main.rs: a response body with a known length, or up to the end of
-- the connection. The sink is any function that takes a state and some bytes and may fail. Each
-- round of a loop reads once, so fuel above the size of the input is enough.
pub mod Delivers
pub mod OpenEnded
pub mod Ends
pub mod Keeps
use Prim.Native.Nat.{◌*◌}
use proof_of_observation.Base.{
  ℕ, zero, suc, ◌+◌, ◌-◌, min, Bool, true, false, Option, none, some, List, [], ◌∷◌, ◌++◌, Bytes,
  length, take, ltb, if◌then◌else◌, Result, ok, err, ◌>>=◌,
}
use proof_of_observation.Http.Input.{
  ErrorKind, unexpected_eof, connection_aborted, other, Input, Got, bytes, failed, read, size,
}

abbrev pub max_resp : ℕ
max_resp = 64 * 1024 * 1024

-- The size of `tmp`.
abbrev pub buffer : ℕ
buffer = 16384

-- The error messages. `out_of_fuel` is the model's own.
pub data StreamError : Type 0 where
  too_large bad_chunk_size chunk_eof sink_failed out_of_fuel : StreamError
  early_eof : ℕ → ℕ → StreamError
  read_failed : ErrorKind → StreamError

module _ {S : Type 0} (sink : S → Bytes → Result StreamError S) where
  -- One round with a length: `got` is what the read returned, `again` the next round.
  exact_round :
      (ℕ → Input → S → Result StreamError S) → ℕ → ℕ → Got × Input → S → Result StreamError S
  exact_round again cl total (bytes [], input) s = err (early_eof total cl)
  exact_round again cl total (bytes (x ∷ b), input) s = do
    s' ← sink s (x ∷ b)
    again (total + length (x ∷ b)) input s'
  exact_round again cl total (failed unexpected_eof, input) s = err (early_eof total cl)
  exact_round again cl total (failed connection_aborted, input) s = err (early_eof total cl)
  exact_round again cl total (failed other, input) s = err (read_failed other)

  -- `while total < cl`
  unfoldable pub exact : ℕ → ℕ → ℕ → Input → S → Result StreamError S
  unfolding exact_round
  exact zero cl total input s = if ltb total cl then err out_of_fuel else ok s
  exact (suc fuel) cl total input s = elim (ltb total cl) [
    | true ↦ exact_round (exact fuel cl) cl total (read (min (cl - total) buffer) input) s
    | false ↦ ok s
  ]

  -- One round without a length: the end of the connection ends the body.
  open_round : (ℕ → Input → S → Result StreamError S) → ℕ → Got × Input → S → Result StreamError S
  open_round again total (bytes [], input) s = ok s
  open_round again total (bytes (x ∷ b), input) s =
      let total' = total + length (x ∷ b) in
      if ltb max_resp total' then err too_large else (do s' ← sink s (x ∷ b); again total' input s')
  open_round again total (failed unexpected_eof, input) s = ok s
  open_round again total (failed connection_aborted, input) s = ok s
  open_round again total (failed other, input) s = err (read_failed other)

  unfoldable pub open_ended : ℕ → ℕ → Input → S → Result StreamError S
  unfolding open_round
  open_ended zero total input s = err out_of_fuel
  open_ended (suc fuel) total input s = open_round (open_ended fuel) total (read buffer input) s

  -- What came with the head: the body's first bytes, if there are any.
  unfoldable pub sink_some : Bytes → S → Result StreamError S
  sink_some [] s = ok s
  sink_some (x ∷ b) s = sink s (x ∷ b)

  unfoldable pub stream_plain : Option ℕ → Bytes → Input → S → Result StreamError S
  unfolding sink_some exact open_ended
  stream_plain (some cl) initial input s = if ltb max_resp cl then err too_large else do
    let first = take (min (length initial) cl) initial
    s' ← sink_some first s
    exact (suc (size input)) cl (length first) input s'
  stream_plain none initial input s =
      if ltb max_resp (length initial)
      then err too_large
      else do s' ← sink_some initial s; open_ended (suc (size input)) (length initial) input s'

-- The sink that keeps what it is given.
abbrev pub record_sink : Bytes → Bytes → Result StreamError Bytes
record_sink o b = ok (o ++ b)
