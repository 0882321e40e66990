-- ===== src/Handler.antt =====
-- `handle` of enclave/src/main.rs: one request from the control connection, its exchange with the
-- upstream, and the response and its trailer on the control connection. The upstream is a parameter:
-- what it sends once the request was written to it, or why there is no connection. The counter of response bytes is left out.
pub mod Relayed
pub mod Relays
pub mod Requests
use proof_of_observation.Base.{
  ℕ, ◌+◌, ◌%◌, ◌^◌, Bool, true, false, not, ◌&&◌, ◌||◌, Option, none, some, List, [], ◌∷◌, ◌++◌,
  Bytes, length, ◌==◌, ℤ, pos, if◌then◌else◌, Result, ok, err, ◌>>=◌,
}
use proof_of_observation.Text.{Text, lit, eq_ignore_ascii_case}
use proof_of_observation.Text.Utf8.{as_bytes}
use proof_of_observation.Wire.{
  FrameError, read_frame, max_req_head, max_req_frame, req_head, req_body, resp_head, resp_chunk,
}
use proof_of_observation.Profile.{Stack, rustls_aws_lc, TlsProfile, H2Settings}
use proof_of_observation.Profile.Decode.{decode}
use proof_of_observation.Hash.{hex, sha256_hex}
use proof_of_observation.Json.{Value, number, string, object, Object, fields, Libs}
use proof_of_observation.Json.Map.{insert, insert_all}
use proof_of_observation.Json.Merge.{and_then, unwrap_or}
use proof_of_observation.Statement.{no_crlf}
use proof_of_observation.Http.Input.{Input}
use proof_of_observation.Http.Head.{HeadError, read_until_headers}
use proof_of_observation.Http.Headers.{Headers, HeadersError, parse_headers}
use proof_of_observation.Http.Plain.{StreamError, sink_failed, stream_plain, max_resp}
use proof_of_observation.Http.Chunked.{stream_chunked}
use proof_of_observation.Http.Request.{parse_headers_ordered, build_request_head_ordered}
use proof_of_observation.Http.Request.Plain.{build_request_head}
use proof_of_observation.Claims.{Upstream, ReqHead, Policy}
use proof_of_observation.Claims.Collector
use proof_of_observation.Claims.Collector.{Collector}
use proof_of_observation.Intake.{
  HandleError, no_upstream, response_head, response_headers, response_body, write_resp_head,
  write_trailer, Order, Decoders, or_err, map_err, read_order, decode_profile,
}
use proof_of_observation.Trailer.{
  Control, send, ProofBackend, Answer, Tools, write_attested_trailer,
}

-- What the HTTP/2 client hands to its sink: the head, the chunks, and whether it ends well.
pub record H2Run : Type 0 where
  pub status : ℕ
  pub headers : List (Text × Text)
  pub chunks : List Bytes
  pub ending : Result Text Unit

-- The connections to the upstream, with their TLS stacks: what arrives once the request is written,
-- and the HTTP/2 client with its handshake, or the message of an error.
pub record Outside : Type 0 where
  pub exchange : Option TlsProfile → Option Bytes → ReqHead → Bytes → Result Text Input
  pub h2_exchange :
      Option TlsProfile → ReqHead → Text → List (Text × Text) → Bytes → Result Text H2Run

abbrev is_rustls_aws_lc : Stack → Bool
is_rustls_aws_lc rustls_aws_lc = true
is_rustls_aws_lc _ = false

abbrev pub wants_h2 : Option TlsProfile → Bool
wants_h2 none = false
wants_h2 (some profile) = is_rustls_aws_lc profile.stack

module _ (libs : Libs) (tools : Tools libs) (env : Policy) where
  -- The request's bytes: the head, from the ordered template if there is one, and the body.
  unfoldable pub head_text : Order → Option (List (Text × Text)) → Text
  unfolding build_request_head_ordered build_request_head
  head_text order (some ordered) =
      let u = order.head.upstream in
      build_request_head_ordered order.head.token (length order.body) (tools.to_uppercase u.method)
        u.path u.host ordered
  head_text order none =
      let u = order.head.upstream in
      build_request_head tools.to_lowercase order.head.token (length order.body)
        (tools.to_uppercase u.method) u.path u.host u.headers

  unfoldable pub request_bytes : Order → Bytes
  unfolding parse_headers_ordered head_text
  request_bytes order =
      as_bytes (head_text order (parse_headers_ordered order.head.upstream.headers_ordered))
      ++ order.body

  -- What the relay of a response works on: the control connection, what was hashed, the collector of
  -- the claims, and the bytes streamed.
  pub record Relay : Type 0 where
    pub control : Control
    pub hashed : Bytes
    pub field_collector : Option (Collector libs.Number)
    pub streamed : ℕ

  abbrev pub push_some : Bytes → Option (Collector libs.Number) → Option (Collector libs.Number)
  push_some bytes none = none
  push_some bytes (some c) = some (Collector.push libs bytes c)

  relay_to : Relay → Bytes → Option Control → Result StreamError Relay
  relay_to r bytes none = err sink_failed
  relay_to r bytes (some control) = ok (record {
    control = control;
    hashed = r.hashed ++ bytes;
    field_collector = push_some bytes r.field_collector;
    streamed = (r.streamed + length bytes) % 2 ^ 64;
  })

  -- Bytes of the body are hashed, collected and sent in a frame; a frame that cannot be written ends
  -- the body.
  unfoldable pub relay : Relay → Bytes → Result StreamError Relay
  unfolding send relay_to
  relay r bytes = relay_to r bytes (send resp_chunk bytes r.control)

  -- `{ "status": …, "headers": … }`
  abbrev pub header_values : List (Text × Text) → Object libs.Number
  header_values [] = []
  header_values ((k, v) ∷ headers) = (k, string v) ∷ header_values headers

  unfoldable pub head_payload : ℕ → Object libs.Number → Bytes
  unfolding insert_all
  head_payload status headers = as_bytes (
      tools.to_json (
        object (
          fields (
            insert_all [] (
              (lit "status", number (libs.number_of (pos status)))
              ∷ (lit "headers", object (fields headers))
              ∷ [])))))

  unfoldable pub stream_body : Headers → Bytes → Input → Relay → Result StreamError Relay
  unfolding stream_chunked stream_plain relay
  stream_body h leftover input r =
      if h.chunked
      then stream_chunked relay leftover input r
      else stream_plain relay h.content_length leftover input r

  abbrev pub start_relay : Order → Text → Control → Relay
  start_relay order content_type control = record {
    control = control;
    hashed = [];
    field_collector = Collector.new libs env order.head order.body content_type;
    streamed = 0;
  }

  -- What the trailer says, from what was relayed.
  unfoldable pub answer_of : Order → ℕ → Text → Relay → Answer libs.Number
  answer_of order status content_type r =
      let norm_method = tools.to_uppercase order.head.upstream.method in
      record {
        head = order.head;
        nonce_bytes = order.nonce_bytes;
        norm_method = norm_method;
        status = status;
        content_type = content_type;
        req_body_hex = sha256_hex libs order.body;
        resp_body_hex = sha256_hex libs r.hashed;
        field_claims =
            and_then r.field_collector (Collector.finish libs env order.head norm_method status);
      }

  -- A response over HTTP/1.1, from its head to the trailer.
  unfoldable pub respond :
      ProofBackend libs.Number → Order → Input → Control → Result HandleError Control
  unfolding read_until_headers parse_headers head_payload stream_body answer_of
      write_attested_trailer send
  respond backend order input control = do
    split ← map_err response_head (read_until_headers input)
    h ← map_err response_headers (parse_headers tools.to_lowercase split.0.0)
    headed ←
        or_err write_resp_head
          (send resp_head (head_payload h.status (header_values h.headers)) control)
    let content_type = unwrap_or [] h.content_type
    relayed ←
        map_err response_body
          (stream_body h split.0.1 split.1 (start_relay order content_type headed))
    or_err write_trailer (
        write_attested_trailer libs tools backend (answer_of order h.status content_type relayed)
          relayed.control)

  -- `AttestedH2Sink::on_head`: the last content type counts.
  abbrev note_content_type : Text × Text → Text → Text
  note_content_type (name, value) content_type =
      if eq_ignore_ascii_case name (lit "content-type") then value else content_type

  h2_content_type : Text → List (Text × Text) → Text
  h2_content_type content_type [] = content_type
  h2_content_type content_type (header ∷ headers) =
      h2_content_type (note_content_type header content_type) headers

  unfoldable pub h2_on_head : Order → ℕ → List (Text × Text) → Control → Result HandleError Relay
  unfolding h2_content_type head_payload send insert_all
  h2_on_head order status headers control = do
    headed ←
        or_err write_resp_head
          (send resp_head (head_payload status (insert_all [] (header_values headers))) control)
    ok (start_relay order (h2_content_type [] headers) headed)

  -- `on_chunk`, for each chunk.
  unfoldable pub h2_on_chunks : List Bytes → Relay → Result StreamError Relay
  unfolding relay
  h2_on_chunks [] r = ok r
  h2_on_chunks (chunk ∷ chunks) r = do r' ← relay r chunk; h2_on_chunks chunks r'

  -- A response over HTTP/2: what the client hands to its sink, and how it ends.
  unfoldable pub h2_respond :
      ProofBackend libs.Number → Order → H2Run → Control → Result HandleError Control
  unfolding h2_on_head h2_on_chunks answer_of write_attested_trailer
  h2_respond backend order run control = do
    r ← h2_on_head order run.status run.headers control
    relayed ← map_err response_body (h2_on_chunks run.chunks r)
    done ← map_err no_upstream run.ending
    or_err write_trailer (
        write_attested_trailer libs tools backend
          (answer_of order run.status (h2_content_type [] run.headers) relayed) relayed.control)

  abbrev h2_headers : Upstream → List (Text × Text)
  h2_headers u = unwrap_or u.headers (parse_headers_ordered u.headers_ordered)

  -- The profile decides between HTTP/1.1 and HTTP/2.
  exchange :
      Outside
      → Decoders
      → ProofBackend libs.Number
      → Order
      → Option TlsProfile
      → Bool
      → Control
      → Result HandleError Control
  unfolding respond h2_respond request_bytes
  exchange outside decoders backend order profile true control = do
    run ← map_err no_upstream (
        outside.h2_exchange profile order.head (tools.to_uppercase order.head.upstream.method)
          (h2_headers order.head.upstream) order.body)
    h2_respond backend order run control
  exchange outside decoders backend order profile false control = do
    input ← map_err no_upstream (
        outside.exchange profile (and_then order.head.tls_seed decoders.b64_decode) order.head
          (request_bytes order))
    respond backend order input control

  unfoldable pub handle :
      Outside → Decoders → ProofBackend libs.Number → Bytes → Control → Result HandleError Control
  unfolding read_order decode_profile exchange
  handle outside decoders backend input control = do
    order ← read_order decoders input
    let profile = decode_profile decoders order.head
    exchange outside decoders backend order profile (wants_h2 profile) control
