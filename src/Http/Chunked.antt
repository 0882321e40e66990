-- ===== src/Http/Chunked.antt =====
-- `stream_chunked` of enclave/src/main.rs: a response body in chunks. The loops that read take fuel
-- above the size of the input, since each round reads once; the loop over the chunks takes fuel
-- above the bytes in hand and still to come, since each chunk takes at least its line's end.
pub mod Delivers
pub mod Keeps
pub mod Reads
pub mod Short
pub mod Sizes
use proof_of_observation.Base.{
  ℕ, zero, suc, ◌+◌, ◌-◌, ◌*◌, ◌%◌, ◌^◌, min, Bool, true, false, ◌&&◌, Option, none, some, List, [],
  ◌∷◌, ◌++◌, Bytes, length, take, drop, ltb, within, ◌==◌, if◌then◌else◌, Result, ok, err, ◌>>=◌,
}
use proof_of_observation.Text.{Text, trim, split_on, starts_with}
use proof_of_observation.Text.Utf8.{from_utf8_lossy}
use proof_of_observation.Http.Input.{Input, Got, bytes, failed, read, size}
use proof_of_observation.Http.Find.{find, crlf}
use proof_of_observation.Http.Plain.{
  StreamError, too_large, bad_chunk_size, chunk_eof, out_of_fuel, read_failed, max_resp, buffer,
}

-- A hexadecimal digit, as `char::to_digit(16)`.
unfoldable pub digit_of : ℕ → Option ℕ
digit_of c =
    if within b'0' b'9' c
    then some (c - b'0')
    else if within b'a' b'f' c
    then some (c - b'a' + 10)
    else if within b'A' b'F' c
    then some (c - b'A' + 10)
    else none

-- One more digit, while the value fits a usize.
abbrev in_usize : Option ℕ → ℕ → (ℕ → Option ℕ) → Option ℕ
in_usize none acc later = none
in_usize (some d) acc later = if ltb (acc * 16 + d) (2 ^ 64) then later (acc * 16 + d) else none

-- The digits behind `acc`; a value that does not fit a usize is an error.
unfoldable pub hex_value : ℕ → Text → Option ℕ
unfolding digit_of
hex_value acc [] = some acc
hex_value acc (c ∷ s) = in_usize (digit_of c) acc (λ v. hex_value v s)

-- `usize::from_str_radix(_, 16)`: digits, with a plus sign before them or not.
unfoldable pub from_str_radix_16 : Text → Option ℕ
unfolding hex_value
from_str_radix_16 [] = none
from_str_radix_16 (c ∷ []) = if c == b'+' then none else hex_value 0 (c ∷ [])
from_str_radix_16 (c ∷ (d ∷ s)) =
    if c == b'+' then hex_value 0 (d ∷ s) else hex_value 0 (c ∷ (d ∷ s))

abbrev pub first_part : List Text → Text
first_part [] = b'0' ∷ []
first_part (part ∷ parts) = part

unfoldable pub chunk_size : Bytes → Option ℕ
unfolding from_str_radix_16
chunk_size line =
    from_str_radix_16 (trim (first_part (split_on b';' (trim (from_utf8_lossy line)))))

-- Reading on until a line has ended: its length, the bytes in hand and the connection.
abbrev Line : Type 0
Line = Result StreamError ((ℕ × Bytes) × Input)

line_read : (Bytes → Input → Line) → Bytes → Got × Input → Line
line_read again buf (bytes [], input) = err chunk_eof
line_read again buf (bytes (x ∷ b), input) = again (buf ++ (x ∷ b)) input
line_read again buf (failed k, input) = err (read_failed k)

line_step : (Bytes → Input → Line) → Bytes → Input → Option ℕ → Line
unfolding line_read
line_step again buf input (some p) = ok ((p, buf), input)
line_step again buf input none = line_read again buf (read buffer input)

unfoldable pub fill_line : ℕ → Bytes → Input → Line
unfolding line_step
fill_line zero buf input = err out_of_fuel
fill_line (suc fuel) buf input = line_step (fill_line fuel) buf input (find buf crlf)

-- Reading on until `want` bytes are in hand, or the connection ends.
abbrev Filled : Type 0
Filled = Result StreamError (Bytes × Input)

body_read : (Bytes → Input → Filled) → Bytes → Got × Input → Filled
body_read again buf (bytes [], input) = ok (buf, input)
body_read again buf (bytes (x ∷ b), input) = again (buf ++ (x ∷ b)) input
body_read again buf (failed k, input) = err (read_failed k)

body_step : (Bytes → Input → Filled) → Bytes → Input → Bool → Filled
unfolding body_read
body_step again buf input true = body_read again buf (read buffer input)
body_step again buf input false = ok (buf, input)

unfoldable pub fill_body : ℕ → ℕ → Bytes → Input → Filled
unfolding body_step
fill_body zero want buf input = err out_of_fuel
fill_body (suc fuel) want buf input =
    body_step (fill_body fuel want) buf input (ltb (length buf) want)

-- `if buf.len() >= 2 && &buf[..2] == b"\r\n" { buf.drain(..2); }`
unfoldable pub skip_crlf : Bytes → Bytes
skip_crlf buf = if starts_with crlf buf then drop 2 buf else buf

abbrev size_or_error : Option ℕ → Result StreamError ℕ
size_or_error none = err bad_chunk_size
size_or_error (some n) = ok n

module _ {S : Type 0} (sink : S → Bytes → Result StreamError S) where
  -- One chunk behind its size line. `total += size` and `size + 2` wrap on a usize.
  unfoldable pub chunk_body :
      (ℕ → Bytes → Input → S → Result StreamError S)
      → ℕ
      → ℕ
      → Bytes
      → Input
      → S
      → Result StreamError S
  unfolding fill_body skip_crlf
  chunk_body again total n buf input s =
      if n == 0 then ok s else if ltb max_resp ((total + n) % 2 ^ 64) then err too_large else do
        (got, rest) ← fill_body (suc (size input)) ((n + 2) % 2 ^ 64) buf input
        s' ← sink s (take (min n (length got)) got)
        again ((total + n) % 2 ^ 64) (skip_crlf (drop (min n (length got)) got)) rest s'

  unfoldable pub chunks : ℕ → ℕ → Bytes → Input → S → Result StreamError S
  unfolding fill_line chunk_size chunk_body
  chunks zero total buf input s = err out_of_fuel
  chunks (suc fuel) total buf input s = do
    ((p, got), rest) ← fill_line (suc (size input)) buf input
    n ← size_or_error (chunk_size (take p got))
    chunk_body (chunks fuel) total n (drop (p + 2) got) rest s

  unfoldable pub stream_chunked : Bytes → Input → S → Result StreamError S
  unfolding chunks
  stream_chunked buf input s = chunks (suc (length buf + size input)) 0 buf input s
