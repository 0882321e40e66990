-- ===== src/Examples/Exchanges.antt =====
-- Examples for the field claims of enclave/src/main.rs.
use proof_of_observation.Base.{
  ℕ, ◌≡◌, refl, sym, ◌∙◌, true, none, some, [], ◌∷◌, ◌++◌, arith, Bytes,
}
use proof_of_observation.Text.{
  Text, lit, starts_with, contains, to_ascii_lowercase, trim, trim_start_matches, is_whitespace,
  split_on, eq_ignore_ascii_case,
}
use proof_of_observation.Text.Utf8.{from_utf8_lossy}
use proof_of_observation.Statement.{path_no_query}
use proof_of_observation.Json.{Value, string, object, fields, array, items, number, Libs}
use proof_of_observation.Json.Presence.{openai_chat, response}
use proof_of_observation.Stream.Framing.{joined}
use proof_of_observation.Stream.Sse.{sse_start, sse_push_all, sse_finish}
use proof_of_observation.Stream.Capture.{nothing_captured}
use proof_of_observation.Protocol.{body_prefix_indicates_sse}
use proof_of_observation.Protocol.Sniff.{body_prefix_indicates_sse-append}
use proof_of_observation.Aggregate.{fold_values}
use proof_of_observation.Aggregate.State
use proof_of_observation.Views.{field_view, looks_like_sse, sse_items}
use proof_of_observation.Views.Streamed.{sse_finish-sse_items}
use proof_of_observation.Views.Response.{finish-field_view}
use proof_of_observation.Claims.{ReqHead, Policy, protocol_of_exchange, build_field_claims}
use proof_of_observation.Claims.Collector.{sniffing, sse_start_at, body_for}
use proof_of_observation.Claims.Collector.Reference.{collected, collected-streaming}
use proof_of_observation.Claims.Collector.Sniffing.{collected-sniffing}
use proof_of_observation.Examples.{plain_libs, keep_event}

-- Every text that parses is a chat exchange with one choice.
abbrev choice : Value ℕ
choice = object (
    fields (
      (lit "index", number 0)
      ∷ (lit "delta", object (fields ((lit "content", string (lit "hi")) ∷ [])))
      ∷ []))

abbrev exchange : Value ℕ
exchange = object (
    fields (
      (lit "choices", array (items (choice ∷ [])))
      ∷ (lit "messages", array (items (choice ∷ [])))
      ∷ (lit "model", string (lit "m"))
      ∷ []))

abbrev pub libs : Libs
libs = record plain_libs { from_str = λ t. some exchange }

abbrev pub head : ReqHead
head = record {
  nonce = lit "n";
  egress_port = 8443;
  upstream = record {
    host = lit "api.openai.com";
    method = lit "post";
    path = lit "/v1/chat/completions";
    headers = [];
    headers_ordered = none;
  };
  token = none;
  client_protocol_family = none;
  downstream_protocol_family = none;
  protocol_family = none;
  tls_seed = none;
  tls_spec = none;
}

abbrev pub env : Policy
env = record { env_family = none; policy = lit "strict"; version = λ p. lit "1" }

abbrev event_stream : Text
event_stream = lit "text/event-stream"

abbrev first_chunk : Bytes
first_chunk = lit "data: {}"

abbrev last_chunk : Bytes
last_chunk = 13 ∷ 10 ∷ 10 ∷ []

abbrev stream : Bytes
stream = joined (first_chunk ∷ last_chunk ∷ [])

stream_looks : looks_like_sse stream ≡ true
unfolding looks_like_sse from_utf8_lossy starts_with
stream_looks = refl

sse_finish-sse_items_example :
    sse_finish libs keep_event
      (sse_push_all libs keep_event (first_chunk ∷ last_chunk ∷ []) (sse_start libs keep_event []))
    ≡ fold_values keep_event [] (sse_items libs stream)
sse_finish-sse_items_example = sse_finish-sse_items libs keep_event first_chunk (last_chunk ∷ []) []

finish-field_view_example :
    State.finish libs (
      sse_finish libs (State.apply libs) (
        sse_push_all libs
          (State.apply libs)
          (first_chunk ∷ last_chunk ∷ [])
          (sse_start libs (State.apply libs) (State.new openai_chat))))
    ≡ field_view libs openai_chat response stream none
finish-field_view_example =
    finish-field_view libs openai_chat first_chunk (last_chunk ∷ []) none stream_looks

first_indicates : body_prefix_indicates_sse first_chunk ≡ true
unfolding body_prefix_indicates_sse from_utf8_lossy starts_with trim_start_matches is_whitespace
first_indicates = refl

body_prefix_indicates_sse-append_example :
    body_prefix_indicates_sse (first_chunk ++ last_chunk) ≡ true
body_prefix_indicates_sse-append_example =
    body_prefix_indicates_sse-append first_chunk last_chunk first_indicates

stream_indicates : body_prefix_indicates_sse stream ≡ true
unfolding body_prefix_indicates_sse from_utf8_lossy starts_with trim_start_matches is_whitespace
stream_indicates = refl

chat : protocol_of_exchange libs env head [] ≡ some openai_chat
unfolding protocol_of_exchange contains to_ascii_lowercase path_no_query
chat = refl

streams : body_for libs head [] event_stream openai_chat ≡ sse_start_at libs openai_chat
unfolding body_for split_on eq_ignore_ascii_case trim
streams = refl

sniffs :
    body_for libs head [] (lit "text/plain") openai_chat
    ≡ sniffing nothing_captured (some (State.new openai_chat))
unfolding body_for split_on eq_ignore_ascii_case trim from_utf8_lossy
sniffs = refl

collected-streaming_example :
    collected libs env head (lit "POST") 200 [] event_stream (first_chunk ∷ last_chunk ∷ [])
    ≡ build_field_claims libs env head (lit "POST") 200 [] stream
collected-streaming_example =
    collected-streaming libs env head (lit "POST") 200 [] event_stream first_chunk (last_chunk ∷ [])
      openai_chat chat streams stream_looks

collected-sniffing_example :
    collected libs env head (lit "POST") 200 [] (lit "text/plain") (first_chunk ∷ last_chunk ∷ [])
    ≡ build_field_claims libs env head (lit "POST") 200 [] stream
collected-sniffing_example =
    collected-sniffing libs env head (lit "POST") 200 [] (lit "text/plain")
      (first_chunk ∷ last_chunk ∷ []) openai_chat chat sniffs (omega arith)
      (stream_looks ∙ sym stream_indicates)
