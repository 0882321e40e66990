-- ===== src/Examples/Streams.antt =====
-- Examples for the response streams of enclave/src/main.rs.
use proof_of_observation.Base.{
  ℕ, ◌≤◌, ◌<◌, ◌≡◌, ◌≢◌, refl, none, some, List, [], ◌∷◌, ◌++◌, arith, Bytes, length, take, ok, err,
  All, true, false,
}
use proof_of_observation.Text.{lit, trim, trim_start, split_on, starts_with}
use proof_of_observation.Json.{Value}
use proof_of_observation.Http.Input.{
  Input, segment, failure, connection_aborted, arrives, read, size,
}
use proof_of_observation.Http.Plain.{
  stream_plain, record_sink, max_resp, out_of_fuel, open_ended, sink_some,
}
use proof_of_observation.Http.Plain.Delivers.{stream_plain_exact, stream_plain_short}
use proof_of_observation.Http.Plain.OpenEnded.{stream_plain_open}
use proof_of_observation.Http.Plain.Ends.{stream_plain_ends}
use proof_of_observation.Stream.Framing.{Progress, wait}
use proof_of_observation.Stream.Sse.{sse_start, sse_push_all, sse_finish, sse_cut}
use proof_of_observation.Stream.Aws.{
  aws_start, aws_push, aws_push_all, aws_finish, aws_cut, aws_push_bounded, cut_message,
  max_message,
}
use proof_of_observation.Base.{ltb}
use proof_of_observation.Stream.Capture.{
  capture_all, nothing_captured, max_field_claims_capture, capture_all-take,
}
use proof_of_observation.Http.Head.{read_until_headers}
use proof_of_observation.Http.Head.Splits.{Splits, read_until_headers-Splits}
use proof_of_observation.Http.Request.{Headers, build_request_head_ordered}
use proof_of_observation.Http.Request.Fields.{NoColon, lit-NoColon}
use proof_of_observation.Http.Request.Framing.{Framed, build_request_head_ordered-Framed}
use proof_of_observation.Http.Chunked.{
  stream_chunked, chunks, chunk_body, fill_line, fill_body, skip_crlf, chunk_size,
  from_str_radix_16, hex_value, digit_of,
}
use proof_of_observation.Http.Chunked.Sizes.{States, no_extension, extension}
use proof_of_observation.Http.Chunked.Delivers.{Chunk, IsChunk, stream_chunked_exact}
use proof_of_observation.Http.Chunked.Short.{Refused, stream_chunked_short}
use proof_of_observation.Http.Find.{find, crlf}
use proof_of_observation.Text.Utf8.{from_utf8_lossy, as_bytes, encode_char}
use proof_of_observation.Statement.{no_crlf, any_crlf}
use proof_of_observation.Intake.{headers_no_crlf}
use proof_of_observation.Examples.{plain_libs, keep_event}

-- One byte came with the head, two segments follow, and then the connection fails.
abbrev initial : Bytes
initial = 1 ∷ []

abbrev input : Input
input = segment (2 ∷ 3 ∷ []) ∷ segment (4 ∷ []) ∷ failure connection_aborted ∷ []

stream_plain_exact_example :
    stream_plain record_sink (some 3) initial input [] ≡ ok (take 3 (initial ++ arrives input))
stream_plain_exact_example =
    stream_plain_exact 3 initial input (omega arith) (unfold arrives in omega arith)

stream_plain_short_example : stream_plain record_sink (some 9) initial input [] ≢ ok (1 ∷ [])
stream_plain_short_example =
    stream_plain_short 9 initial input (1 ∷ []) (unfold arrives in omega arith)

open_runs : stream_plain record_sink none initial input [] ≡ ok (1 ∷ 2 ∷ 3 ∷ 4 ∷ [])
unfolding stream_plain sink_some open_ended read size
open_runs = refl

stream_plain_open_example :
    let final : Bytes = 1 ∷ 2 ∷ 3 ∷ 4 ∷ [] in
    (final ≡ initial ++ arrives input) × (length final ≤ max_resp)
stream_plain_open_example = stream_plain_open initial input (1 ∷ 2 ∷ 3 ∷ 4 ∷ []) open_runs

record_sink-refuses : (s b : Bytes) → record_sink s b ≢ err out_of_fuel
record_sink-refuses s b h = cc

stream_plain_ends_example : stream_plain record_sink (some 9) initial input [] ≢ err out_of_fuel
stream_plain_ends_example =
    stream_plain_ends record_sink record_sink-refuses (some 9) initial input []

-- "data:x\n\n" in one chunk and in three.
abbrev whole : Bytes
whole = lit "data:x\n\n"

sse_cut_example :
    sse_finish plain_libs keep_event
      (sse_push_all plain_libs keep_event (whole ∷ []) (sse_start plain_libs keep_event []))
    ≡ sse_finish plain_libs keep_event (
        sse_push_all plain_libs keep_event
          (lit "da" ∷ lit "ta:x\n" ∷ lit "\n" ∷ [])
          (sse_start plain_libs keep_event []))
sse_cut_example =
    sse_cut plain_libs keep_event whole [] (lit "da") (lit "ta:x\n" ∷ lit "\n" ∷ []) [] refl

-- A message of 17 bytes with a payload of one byte, whole and cut.
abbrev message : Bytes
message = 0 ∷ 0 ∷ 0 ∷ 17 ∷ 0 ∷ 0 ∷ 0 ∷ 0 ∷ 0 ∷ 0 ∷ 0 ∷ 0 ∷ 65 ∷ 0 ∷ 0 ∷ 0 ∷ 0 ∷ []

aws_cut_example :
    aws_finish plain_libs keep_event
      (aws_push_all plain_libs keep_event (message ∷ []) (aws_start plain_libs keep_event []))
    ≡ aws_finish plain_libs keep_event (
        aws_push_all plain_libs keep_event
          ((0 ∷ 0 ∷ []) ∷ (0 ∷ 17 ∷ 0 ∷ 0 ∷ 0 ∷ 0 ∷ 0 ∷ 0 ∷ 0 ∷ 0 ∷ 65 ∷ 0 ∷ 0 ∷ 0 ∷ 0 ∷ []) ∷ [])
          (aws_start plain_libs keep_event []))
aws_cut_example =
    aws_cut plain_libs keep_event message [] (0 ∷ 0 ∷ [])
      ((0 ∷ 17 ∷ 0 ∷ 0 ∷ 0 ∷ 0 ∷ 0 ∷ 0 ∷ 0 ∷ 0 ∷ 65 ∷ 0 ∷ 0 ∷ 0 ∷ 0 ∷ []) ∷ []) [] refl

abbrev nothing_yet : Progress (List (Value ℕ))
nothing_yet = aws_start plain_libs keep_event []

nothing_yet-waits : cut_message nothing_yet.pending ≡ wait
unfolding cut_message
nothing_yet-waits = refl

aws_push_bounded_example :
    (cut_message (aws_push plain_libs keep_event message nothing_yet).pending ≡ wait)
    × (length (aws_push plain_libs keep_event message nothing_yet).pending < max_message)
aws_push_bounded_example =
    aws_push_bounded plain_libs keep_event message nothing_yet nothing_yet-waits

read_until_headers-Splits_example :
    Splits
      (arrives (segment (72 ∷ 13 ∷ 10 ∷ 13 ∷ []) ∷ segment (10 ∷ 66 ∷ []) ∷ []))
      (read_until_headers (segment (72 ∷ 13 ∷ 10 ∷ 13 ∷ []) ∷ segment (10 ∷ 66 ∷ []) ∷ []))
read_until_headers-Splits_example =
    read_until_headers-Splits (segment (72 ∷ 13 ∷ 10 ∷ 13 ∷ []) ∷ segment (10 ∷ 66 ∷ []) ∷ [])

capture_all-take_example :
    ((capture_all (initial ∷ message ∷ []) nothing_captured).body
      ≡ take max_field_claims_capture (initial ++ message))
    × ((capture_all (initial ∷ message ∷ []) nothing_captured).truncated
        ≡ ltb max_field_claims_capture (length (initial ++ message)))
capture_all-take_example = capture_all-take (initial ∷ message ∷ [])

-- A template that lies about the length and asks for a transfer encoding.
abbrev template : Headers
template =
    (lit "Host", lit "a.b")
    ∷ (lit "Content-Length", lit "99")
    ∷ (lit "Transfer-Encoding", lit "chunked")
    ∷ (lit "Authorization", [])
    ∷ []

-- Names without a colon, and fields that pass the test of the map's headers.
template-NoColon : All (λ p. NoColon p.0) template
template-NoColon = (
  lit-NoColon (lit "Host") refl,
  (
    lit-NoColon (lit "Content-Length") refl,
    (lit-NoColon (lit "Transfer-Encoding") refl, (lit-NoColon (lit "Authorization") refl, tt)),
  ),
)

template-passes : headers_no_crlf template ≡ true
unfolding headers_no_crlf no_crlf any_crlf as_bytes encode_char
template-passes = refl

build_request_head_ordered-Framed_example :
    Framed
      (some (lit "t"))
      3
      (lit "POST")
      (lit "/v1")
      (build_request_head_ordered (some (lit "t")) 3 (lit "POST") (lit "/v1") (lit "a.b") template)
unfolding no_crlf any_crlf as_bytes encode_char
build_request_head_ordered-Framed_example =
    build_request_head_ordered-Framed (some (lit "t")) 3 (lit "POST") (lit "/v1") (lit "a.b")
      template refl refl refl refl template-passes template-NoColon

-- A chunk of two bytes, its second byte and the last chunk in a later segment.
abbrev chunked_start : Bytes
chunked_start = lit "2;x\r\nh"

abbrev chunked_rest : Input
chunked_rest = segment (lit "i\r\n0\r\n\r\n") ∷ []

chunked_runs : stream_chunked record_sink chunked_start chunked_rest [] ≡ ok (lit "hi")
unfolding stream_chunked chunks chunk_body fill_line fill_body skip_crlf chunk_size
    from_str_radix_16 hex_value digit_of find read size from_utf8_lossy trim trim_start split_on
    starts_with
chunked_runs = refl

-- The same connection as chunks: two bytes behind a line with an extension, and ten.
abbrev two_chunks : List Chunk
two_chunks = (lit "2;x", lit "hi") ∷ (lit "A", lit "0123456789") ∷ []

abbrev two_start : Bytes
two_start = lit "2;x\r\nh"

abbrev two_rest : Input
two_rest =
    segment (lit "i\r\nA\r\n01234") ∷ segment (lit "56789\r\n0") ∷ segment (lit "\r\n\r\n") ∷ []

no_size : States (lit "0") 0
no_size = record {
  upper = false;
  first = 0;
  digits = [];
  behind = [];
  text = refl;
  below = (omega arith, tt);
  value = refl;
  end = no_extension;
}

two_chunks-IsChunk : All IsChunk two_chunks
two_chunks-IsChunk = (
  record {
    size = record {
      upper = false;
      first = 2;
      digits = [];
      behind = lit ";x";
      text = refl;
      below = (omega arith, tt);
      value = refl;
      end = extension (lit "x") (λ e. omega arith, tt);
    };
    filled = omega arith;
  },
  (
    record {
      size = record {
        upper = true;
        first = 10;
        digits = [];
        behind = [];
        text = refl;
        below = (omega arith, tt);
        value = refl;
        end = no_extension;
      };
      filled = omega arith;
    },
    tt,
  ),
)

stream_chunked_exact_example :
    stream_chunked record_sink two_start two_rest [] ≡ ok (lit "hi0123456789")
unfolding arrives
stream_chunked_exact_example =
    stream_chunked_exact two_chunks (lit "0") (lit "\r\n") two_start two_rest two_chunks-IsChunk
      no_size (omega arith) refl

-- The two chunks, and the connection ends in the next line.
abbrev cut_rest : Input
cut_rest = segment (lit "i\r\nA\r\n01234") ∷ segment (lit "56789\r\n0") ∷ []

cut_has_no_line : find (lit "0") crlf ≡ none
unfolding find starts_with
cut_has_no_line = refl

stream_chunked_short_example : Refused (stream_chunked record_sink two_start cut_rest [])
unfolding arrives
stream_chunked_short_example =
    stream_chunked_short two_chunks (lit "0") two_start cut_rest two_chunks-IsChunk cut_has_no_line
      (omega arith) refl
