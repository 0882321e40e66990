-- ===== src/Helper.antt =====
-- The client of the proof helper: enclave/src/aliyun_helper.rs. The Unix socket and `serde_json` are
-- parameters: what the helper answers to the bytes it is sent, the request's JSON, and the reading of
-- a `HelperResponse`.
use Prim.Native.Nat.{◌*◌}
use proof_of_observation.Base.{
  ℕ, ◌%◌, ◌^◌, ◌≤◌, ◌<◌, ◌≡◌, refl, sym, ◌∙◌, ok_injective, Bool, true, false, not, Option, none,
  some, ◌++◌, Bytes, arith, length, take, drop, length-append, take-length_append,
  drop-length_append, ltb, ◌==◌, if◌then◌else◌, Result, ok, err, ◌>>=◌,
}
use proof_of_observation.Text.{Text}
use proof_of_observation.Words.{be32, big_endian}
use proof_of_observation.Trailer.{ProofRequest}

abbrev pub protocol_version : ℕ
protocol_version = 1

abbrev pub max_request_payload : ℕ
max_request_payload = 64 * 1024

abbrev pub max_response_payload : ℕ
max_response_payload = 4 * 1024 * 1024

pub record HelperError : Type 0 where
  pub code : Text
  pub message : Text

pub record HelperResponse : Type 0 where
  pub v : ℕ
  pub is_ok : Bool
  pub proof : Option Bytes
  pub error : Option HelperError

-- The error messages, with what they name.
pub data RequestError : Type 0 where
  no_helper request_too_long response_too_long response_eof response_json : RequestError
  response_version : ℕ → RequestError
  helper_error : HelperError → RequestError
  no_detail missing_proof : RequestError

-- `write_frame`: the bytes for the socket.
unfoldable pub write_frame : ℕ → Bytes → Result RequestError Bytes
write_frame max payload =
    if ltb max (length payload)
    then err request_too_long
    else ok (be32 (length payload % 2 ^ 32) ++ payload)

-- `read_exact`
abbrev read_exact : ℕ → Bytes → Result RequestError (Bytes × Bytes)
read_exact n r = if ltb (length r) n then err response_eof else ok (take n r, drop n r)

abbrev read_payload : ℕ → ℕ → Bytes → Result RequestError (Bytes × Bytes)
read_payload max n r = if ltb max n then err response_too_long else read_exact n r

-- `read_frame`, and what follows the frame.
unfoldable pub read_frame : ℕ → Bytes → Result RequestError (Bytes × Bytes)
read_frame max r = do (hdr, rest) ← read_exact 4 r; read_payload max (big_endian 0 hdr) rest

-- What a response says, once it is read.
abbrev refused : Option HelperError → Result RequestError Bytes
refused none = err no_detail
refused (some e) = err (helper_error e)

abbrev proof_or : Option Bytes → Result RequestError Bytes
proof_or none = err missing_proof
proof_or (some proof) = ok proof

abbrev parsed_or : Option HelperResponse → Result RequestError HelperResponse
parsed_or none = err response_json
parsed_or (some response) = ok response

unfoldable pub proof_of_response : HelperResponse → Result RequestError Bytes
proof_of_response response =
    if not (response.v == protocol_version)
    then err (response_version response.v)
    else if not response.is_ok
    then refused response.error
    else proof_or response.proof

module _ {N : Type 0} (to_vec : ProofRequest N → Bytes)
    (response_of : Bytes → Option HelperResponse) where
  -- `helper` is none where there is no connection; a read sees what it has answered.
  unfoldable pub request_proof : Option (Bytes → Bytes) → ProofRequest N → Result RequestError Bytes
  unfolding write_frame read_frame proof_of_response
  request_proof none request = err no_helper
  request_proof (some helper) request = do
    sent ← write_frame max_request_payload (to_vec request)
    (raw, rest) ← read_frame max_response_payload (helper sent)
    response ← parsed_or (response_of raw)
    proof_of_response response

read_frame_within :
    (max : ℕ) (payload rest : Bytes)
    → length payload < 2 ^ 32
    → length payload ≤ max
    → read_frame max ((be32 (length payload % 2 ^ 32) ++ payload) ++ rest) ≡ ok (payload, rest)
unfolding read_frame be32
read_frame_within max payload rest small fits = ground (
  arith,
  length-append payload rest,
  take-length_append payload rest,
  drop-length_append payload rest,
)

within_limit : (max : ℕ) (payload : Bytes) → length payload ≤ max → ltb max (length payload) ≡ false
within_limit max payload h = ground arith

write_frame_within :
    (max : ℕ) (payload : Bytes)
    → length payload ≤ max
    → write_frame max payload ≡ ok (be32 (length payload % 2 ^ 32) ++ payload)
unfolding write_frame
write_frame_within max payload h = rw (within_limit max payload h) refl

answered :
    (max : ℕ) (answer framed : Bytes)
    → length answer ≤ max
    → write_frame max answer ≡ ok framed
    → be32 (length answer % 2 ^ 32) ++ answer ≡ framed
answered max answer framed h e = ok_injective _ framed (sym (write_frame_within max answer h) ∙ e)

-- If the frame of the request's JSON is accepted, and the helper answers it with the frame of a payload
-- of at most 4 MiB, which something may follow, and which reads as a success of version 1 with a
-- proof, then `request_proof` returns that proof.
pub request_proof-answered :
    {N : Type 0} (to_vec : ProofRequest N → Bytes) (response_of : Bytes → Option HelperResponse)
    (helper : Bytes → Bytes) (request : ProofRequest N) (sent answer framed rest proof : Bytes)
    (error : Option HelperError)
    → write_frame max_request_payload (to_vec request) ≡ ok sent
    → length answer ≤ max_response_payload
    → write_frame max_response_payload answer ≡ ok framed
    → helper sent ≡ framed ++ rest
    → response_of answer ≡ some (record { v = 1; is_ok = true; proof = some proof; error = error })
    → request_proof to_vec response_of (some helper) request ≡ ok proof
unfolding request_proof proof_of_response
request_proof-answered to_vec response_of helper request sent answer framed rest proof error w small
      f e r =
    rw
      (
        w,
        e,
        sym (answered max_response_payload answer framed small f),
        read_frame_within max_response_payload answer rest (omega arith) small,
        r,
      )
      refl
