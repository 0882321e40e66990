-- ===== src/Claims/Collector.antt =====
-- `FieldResponseCollector` of enclave/src/main.rs: the field claims of a response that is seen one
-- chunk at a time.
pub mod Reference
pub mod Sniffing
use proof_of_observation.Base.{
  ℕ, Bool, true, false, not, ◌&&◌, ◌||◌, Option, none, some, List, [], ◌∷◌, Bytes, if◌then◌else◌,
}
use proof_of_observation.Text.{Text, is_empty}
use proof_of_observation.Json.{Value, Libs}
use proof_of_observation.Json.Merge.{and_then}
use proof_of_observation.Json.Presence.{
  Protocol, openai_chat, openai_responses, anthropic, gemini, dashscope, bedrock, cohere, request,
  response, has_required_presence,
}
use proof_of_observation.Protocol.{
  is_sse_content_type, is_aws_event_stream_content_type, path_is_bedrock_converse_stream,
  body_prefix_indicates_sse, request_indicates_streaming,
}
use proof_of_observation.Stream.Framing.{Progress}
use proof_of_observation.Stream.Sse.{sse_start, sse_push, sse_finish}
use proof_of_observation.Stream.Aws.{aws_start, aws_push, aws_finish}
use proof_of_observation.Stream.Capture.{Captured, nothing_captured, capture_field_body}
use proof_of_observation.Aggregate.Bedrock
use proof_of_observation.Aggregate.State
use proof_of_observation.Aggregate.State.{StreamState}
use proof_of_observation.Views.{field_view}
use proof_of_observation.Claims.{
  ReqHead, Policy, protocol_name, protocol_of_exchange, build_field_claims_from_views, when,
}

pub data ResponseBody (N : Type 0) : Type 0 where
  streaming : Progress (List Text × StreamState N) → ResponseBody N
  aws_event_stream : Progress (Bedrock.State N) → ResponseBody N
  sniffing : Captured → Option (StreamState N) → ResponseBody N

pub record Collector (N : Type 0) : Type 0 where
  pub protocol : Protocol
  pub req_view : Value N
  pub body : ResponseBody N

abbrev is_bedrock : Protocol → Bool
is_bedrock bedrock = true
is_bedrock _ = false

module _ (libs : Libs) where
  abbrev N : Type 0
  N = libs.Number

  abbrev pub sse_start_at : Protocol → ResponseBody N
  sse_start_at protocol = streaming (sse_start libs (State.apply libs) (State.new protocol))

  -- How the response is read, by its content type, the request and the path.
  unfoldable pub body_for : ReqHead → Bytes → Text → Protocol → ResponseBody N
  unfolding is_sse_content_type is_aws_event_stream_content_type path_is_bedrock_converse_stream
      request_indicates_streaming protocol_name
  body_for head req_body content_type protocol =
      let request_streaming =
        request_indicates_streaming libs (protocol_name protocol) req_body head.upstream.path in
      if is_sse_content_type content_type
      then sse_start_at protocol
      else if is_bedrock protocol
          && (is_aws_event_stream_content_type content_type
              || (request_streaming
                  || (is_empty content_type && path_is_bedrock_converse_stream head.upstream.path)))
      then aws_event_stream (aws_start libs (Bedrock.apply libs) Bedrock.start)
      else if request_streaming
      then sse_start_at protocol
      else sniffing nothing_captured (some (State.new protocol))

  collector_for : ReqHead → Bytes → Text → Protocol → Option (Collector N)
  unfolding body_for field_view has_required_presence
  collector_for head req_body content_type protocol =
      let req_view = field_view libs protocol request req_body (some head.upstream.path) in
      when (has_required_presence protocol request req_view) (
        some (record {
          protocol = protocol;
          req_view = req_view;
          body = body_for head req_body content_type protocol;
        }))

  unfoldable pub new : Policy → ReqHead → Bytes → Text → Option (Collector N)
  unfolding collector_for protocol_of_exchange
  new env head req_body content_type =
      and_then (protocol_of_exchange libs env head req_body)
        (collector_for head req_body content_type)

  abbrev sse_chunk : Bytes → Progress (List Text × StreamState N) → ResponseBody N
  sse_chunk chunk parser = streaming (sse_push libs (State.apply libs) chunk parser)

  -- A body that starts like an event stream is one, whatever its content type says.
  sniff : Captured → Option (StreamState N) → ResponseBody N
  unfolding body_prefix_indicates_sse sse_push
  sniff c none = sniffing c none
  sniff c (some state) =
      if body_prefix_indicates_sse c.body
      then sse_chunk c.body (sse_start libs (State.apply libs) state)
      else sniffing c (some state)

  unfoldable pub push_body : Bytes → ResponseBody N → ResponseBody N
  unfolding sniff sse_push aws_push capture_field_body
  push_body chunk (streaming parser) = sse_chunk chunk parser
  push_body chunk (aws_event_stream parser) =
      aws_event_stream (aws_push libs (Bedrock.apply libs) chunk parser)
  push_body chunk (sniffing c state) = sniff (capture_field_body chunk c) state

  unfoldable pub push : Bytes → Collector N → Collector N
  unfolding push_body
  push chunk c = record c { body = push_body chunk c.body }

  -- One call of `push` for each chunk.
  unfoldable pub push_all : List Bytes → Collector N → Collector N
  unfolding push
  push_all [] c = c
  push_all (chunk ∷ chunks) c = push_all chunks (push chunk c)

  abbrev aws_view : Progress (Bedrock.State N) → Option (Value N × Bool)
  aws_view g = if g.failed then none else some (Bedrock.finish libs g.state, true)

  -- The view of the response and whether it streamed, unless the parser failed or the body is
  -- longer than what is kept of it.
  unfoldable pub finish_body : ReqHead → Protocol → ResponseBody N → Option (Value N × Bool)
  unfolding sse_finish aws_finish field_view
  finish_body head protocol (streaming parser) =
      some (State.finish libs (sse_finish libs (State.apply libs) parser), true)
  finish_body head protocol (aws_event_stream parser) =
      aws_view (aws_finish libs (Bedrock.apply libs) parser)
  finish_body head protocol (sniffing c state) =
      if c.truncated
      then none
      else some (field_view libs protocol response c.body (some head.upstream.path), false)

  unfoldable pub finish : Policy → ReqHead → Text → ℕ → Collector N → Option (Value N)
  unfolding finish_body build_field_claims_from_views
  finish env head norm_method status c = and_then (finish_body head c.protocol c.body) λ v.
      build_field_claims_from_views libs env head norm_method status c.protocol c.req_view v.0 v.1
