-- ===== src/Intake.antt =====
-- The first part of `handle` of enclave/src/main.rs: the request from the control connection, and its
-- tests. The decoders of `serde_json` and `base64` are parameters.
pub mod Guards
use proof_of_observation.Base.{
  ℕ, ◌+◌, ◌%◌, ◌^◌, Bool, true, false, not, ◌&&◌, ◌||◌, Option, none, some, List, [], ◌∷◌, ◌++◌,
  Bytes, length, ◌==◌, ℤ, pos, if◌then◌else◌, Result, ok, err, ◌>>=◌,
}
use proof_of_observation.Text.{Text, lit, eq_ignore_ascii_case}
use proof_of_observation.Text.Utf8.{as_bytes}
use proof_of_observation.Wire.{
  FrameError, read_frame, max_req_head, max_req_frame, req_head, req_body, resp_head, resp_chunk,
}
use proof_of_observation.Profile.{Stack, rustls_aws_lc, TlsProfile, H2Settings}
use proof_of_observation.Profile.Decode.{decode}
use proof_of_observation.Hash.{hex, sha256_hex}
use proof_of_observation.Json.{Value, number, string, object, Object, fields, Libs}
use proof_of_observation.Json.Map.{insert, insert_all}
use proof_of_observation.Json.Merge.{and_then, unwrap_or}
use proof_of_observation.Statement.{no_crlf}
use proof_of_observation.Http.Input.{Input}
use proof_of_observation.Http.Head.{HeadError, read_until_headers}
use proof_of_observation.Http.Headers.{Headers, HeadersError, parse_headers}
use proof_of_observation.Http.Plain.{StreamError, sink_failed, stream_plain, max_resp}
use proof_of_observation.Http.Chunked.{stream_chunked}
use proof_of_observation.Http.Request.{parse_headers_ordered, build_request_head_ordered}
use proof_of_observation.Http.Request.Plain.{build_request_head}
use proof_of_observation.Claims.{Upstream, ReqHead, Policy}

-- The error messages, with what they name.
pub data HandleError : Type 0 where
  head_frame body_frame : FrameError → HandleError
  not_head not_body : ℕ → HandleError
  head_json nonce_base64 crlf_in_upstream crlf_in_headers crlf_in_token : HandleError
  no_upstream : Text → HandleError
  response_head : HeadError → HandleError
  response_headers : HeadersError → HandleError
  response_body : StreamError → HandleError
  write_resp_head write_trailer : HandleError

-- A request that was read, and passed the tests.
pub record Order : Type 0 where
  pub head : ReqHead
  pub body : Bytes
  pub nonce_bytes : Bytes

pub record Decoders : Type 0 where
  -- `serde_json::from_slice` of a `ReqHead`
  pub head_of : Bytes → Option ReqHead
  -- `B64.decode`
  pub b64_decode : Text → Option Bytes

abbrev pub or_err : {E A : Type 0} → E → Option A → Result E A
or_err e none = err e
or_err e (some a) = ok a

abbrev pub map_err : {E F A : Type 0} → (E → F) → Result E A → Result F A
map_err f (ok a) = ok a
map_err f (err e) = err (f e)

abbrev pub check : Bool → HandleError → Result HandleError Unit
check true e = ok tt
check false e = err e

unfoldable pub headers_no_crlf : List (Text × Text) → Bool
unfolding no_crlf
headers_no_crlf [] = true
headers_no_crlf ((k, v) ∷ headers) = (no_crlf k && no_crlf v) && headers_no_crlf headers

abbrev pub token_no_crlf : Option Text → Bool
token_no_crlf none = true
token_no_crlf (some token) = no_crlf token

abbrev pub upstream_no_crlf : Upstream → Bool
upstream_no_crlf u = no_crlf u.host && (no_crlf u.method && no_crlf u.path)

-- The frame of a type that is expected next, and the bytes behind it.
unfoldable pub expect_frame :
    (FrameError → HandleError)
    → (ℕ → HandleError)
    → ℕ
    → ℕ
    → Bytes
    → Result HandleError (Bytes × Bytes)
unfolding read_frame
expect_frame unread other t max input = do
  frame ← map_err unread (read_frame max input)
  if frame.0.0 == t then ok (frame.0.1, frame.1) else err (other frame.0.0)

unfoldable pub read_order : Decoders → Bytes → Result HandleError Order
unfolding expect_frame headers_no_crlf
read_order decoders input = do
  first ← expect_frame head_frame not_head req_head max_req_head input
  head ← or_err head_json (decoders.head_of first.0)
  second ← expect_frame body_frame not_body req_body max_req_frame first.1
  nonce_bytes ← or_err nonce_base64 (decoders.b64_decode head.nonce)
  u ← check (upstream_no_crlf head.upstream) crlf_in_upstream
  h ← check (headers_no_crlf head.upstream.headers) crlf_in_headers
  t ← check (token_no_crlf head.token) crlf_in_token
  ok (record { head = head; body = second.0; nonce_bytes = nonce_bytes })

-- `Result::ok`
abbrev ok_value : {E A : Type 0} → Result E A → Option A
ok_value (ok a) = some a
ok_value (err e) = none

-- A profile that cannot be decoded counts as none.
unfoldable pub decode_profile : Decoders → ReqHead → Option TlsProfile
unfolding decode
decode_profile decoders head =
    and_then head.tls_spec λ spec. and_then (decoders.b64_decode spec) λ b. ok_value (decode b)
