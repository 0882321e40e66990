-- ===== src/Wire.antt =====
-- The frames of the control connection: `read_frame` and `write_frame` of enclave/src/main.rs, with
-- the frame types and limits. A frame is a type byte, a length of four bytes and the payload.
-- A reader is the bytes that are still to come on it; `read_exact` fails where they are too few.
use Prim.Native.Nat.{◌*◌}
use proof_of_observation.Base.{
  ℕ, ◌%◌, ◌^◌, ◌≤◌, ◌<◌, ◌≡◌, [], ◌∷◌, ◌++◌, arith, Bytes, length, take, drop, length-append,
  take-length_append, drop-length_append, ltb, if◌then◌else◌, Result, ok, err, ◌>>=◌,
}
use proof_of_observation.Words.{be32, big_endian}

abbrev pub max_req_head : ℕ
max_req_head = 1024 * 1024

abbrev pub max_req_frame : ℕ
max_req_frame = 64 * 1024 * 1024

-- The frame types.
abbrev pub req_head : ℕ
req_head = 0x01

abbrev pub req_body : ℕ
req_body = 0x02

abbrev pub resp_head : ℕ
resp_head = 0x10

abbrev pub resp_chunk : ℕ
resp_chunk = 0x11

abbrev pub resp_trailer : ℕ
resp_trailer = 0x12

abbrev pub stats : ℕ
stats = 0x20

abbrev pub err_frame : ℕ
err_frame = 0x1f

pub data FrameError : Type 0 where
  unexpected_eof invalid_data : FrameError

-- `read_exact` into a buffer of `n` bytes
unfoldable pub read_exact : ℕ → Bytes → Result FrameError (Bytes × Bytes)
read_exact n r = if ltb (length r) n then err unexpected_eof else ok (take n r, drop n r)

-- The payload behind a header; `n > max` is refused before anything is allocated.
unfoldable pub read_payload : ℕ → ℕ → ℕ → Bytes → Result FrameError ((ℕ × Bytes) × Bytes)
unfolding read_exact
read_payload max t n r =
    if ltb max n then err invalid_data else (do (buf, rest) ← read_exact n r; ok ((t, buf), rest))

unfoldable pub parse_header : ℕ → Bytes → Bytes → Result FrameError ((ℕ × Bytes) × Bytes)
unfolding read_payload
parse_header max (t ∷ len) r = read_payload max t (big_endian 0 len) r
parse_header max [] r = err unexpected_eof

unfoldable pub read_frame : ℕ → Bytes → Result FrameError ((ℕ × Bytes) × Bytes)
unfolding read_exact parse_header
read_frame max r = do (hdr, rest) ← read_exact 5 r; parse_header max hdr rest

-- `data.len() as u32` wraps.
unfoldable pub write_frame : Bytes → ℕ → Bytes → Bytes
write_frame w t payload = (w ++ (t ∷ be32 (length payload % 2 ^ 32))) ++ payload

-- Reading a frame that was written gives its type and payload back, and leaves what follows, for
-- every payload shorter than 2^32 and within the reader's limit.
pub read_frame-write_frame :
    (max t : ℕ) (payload rest : Bytes)
    → length payload < 2 ^ 32
    → length payload ≤ max
    → read_frame max (write_frame [] t payload ++ rest) ≡ ok ((t, payload), rest)
unfolding read_frame write_frame be32
read_frame-write_frame max t payload rest small fits = ground (
  arith,
  length-append payload rest,
  take-length_append payload rest,
  drop-length_append payload rest,
)
