-- ===== src/Http/Head.antt =====
-- The head of the upstream's response, in enclave/src/main.rs: `read_until_headers`. Each round
-- reads once, so fuel above the size of the input is enough.
pub mod Splits
use Prim.Native.Nat.{◌*◌}
use proof_of_observation.Base.{
  ℕ, zero, suc, ◌+◌, Bool, true, false, Option, none, some, List, [], ◌∷◌, ◌++◌, Bytes, length,
  take, drop, ltb, if◌then◌else◌, Result, ok, err,
}
use proof_of_observation.Http.Input.{
  ErrorKind, unexpected_eof, connection_aborted, other, Input, Got, bytes, failed, read, size,
}
use proof_of_observation.Http.Find.{find, crlf_crlf}

abbrev pub max_head : ℕ
max_head = 64 * 1024

-- The size of `tmp`.
abbrev pub head_buffer : ℕ
head_buffer = 4096

-- The error messages. `out_of_fuel` is the model's own.
pub data HeadError : Type 0 where
  head_too_large closed_early head_eof out_of_fuel : HeadError
  head_read_failed : ErrorKind → HeadError

-- What one read returned, and the next round.
unfoldable pub head_round :
    (Bytes → Input → Result HeadError ((Bytes × Bytes) × Input))
    → Bytes
    → Got × Input
    → Result HeadError ((Bytes × Bytes) × Input)
head_round again buf (bytes [], input) = err closed_early
head_round again buf (bytes (x ∷ b), input) = again (buf ++ (x ∷ b)) input
head_round again buf (failed unexpected_eof, input) = err head_eof
head_round again buf (failed connection_aborted, input) = err (head_read_failed connection_aborted)
head_round again buf (failed other, input) = err (head_read_failed other)

-- One round: the place of the empty line, and whether the head is too long.
unfoldable pub head_step :
    (Bytes → Input → Result HeadError ((Bytes × Bytes) × Input))
    → Bytes
    → Input
    → Option ℕ
    → Bool
    → Result HeadError ((Bytes × Bytes) × Input)
unfolding head_round
head_step again buf input (some pos) long = ok ((take pos buf, drop (pos + 4) buf), input)
head_step again buf input none true = err head_too_large
head_step again buf input none false = head_round again buf (read head_buffer input)

unfoldable pub head_loop : ℕ → Bytes → Input → Result HeadError ((Bytes × Bytes) × Input)
unfolding head_step
head_loop zero buf input = err out_of_fuel
head_loop (suc fuel) buf input =
    head_step (head_loop fuel) buf input (find buf crlf_crlf) (ltb max_head (length buf))

-- The head without the empty line, the bytes behind it, and the connection.
unfoldable pub read_until_headers : Input → Result HeadError ((Bytes × Bytes) × Input)
unfolding head_loop
read_until_headers input = head_loop (suc (size input)) [] input
