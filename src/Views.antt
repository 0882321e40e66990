-- ===== src/Views.antt =====
-- What of a body goes into the field claims, in enclave/src/main.rs: `looks_like_sse`,
-- `parse_sse_data`, `flush_sse_data` and `field_view`.
pub mod Lines
pub mod Streamed
pub mod Response
use proof_of_observation.Base.{
  ℕ, zero, suc, Bool, true, false, ◌||◌, Option, none, some, List, [], ◌∷◌, ◌++◌, Bytes, take,
  equal, ◌==◌, if◌then◌else◌,
}
use proof_of_observation.Text.{Text, lit, is_empty, starts_with, strip_prefix}
use proof_of_observation.Text.Utf8.{from_utf8_lossy}
use proof_of_observation.Json.{Value, Values, array, items, is_array, Libs}
use proof_of_observation.Json.Presence.{
  Protocol, openai_chat, openai_responses, anthropic, gemini, dashscope, bedrock, cohere, Kind,
  request, response, pick_value,
}
use proof_of_observation.Stream.Sse.{flush, data_line}
use proof_of_observation.Protocol.{parse_json_body}
use proof_of_observation.Aggregate.OpenaiChat
use proof_of_observation.Aggregate.OpenaiResponses
use proof_of_observation.Aggregate.Anthropic
use proof_of_observation.Aggregate.Gemini
use proof_of_observation.Aggregate.Dashscope
use proof_of_observation.Aggregate.Bedrock
use proof_of_observation.Aggregate.Cohere

-- `str::lines`: a line ends with a line feed, before which one carriage return is dropped; what
-- follows the last line feed is a line if it is not empty.
abbrev pub extend_line : ℕ → List Text → List Text
extend_line c [] = (c ∷ []) ∷ []
extend_line c (line ∷ rest) = (c ∷ line) ∷ rest

unfoldable pub split_inclusive : Text → List Text
split_inclusive [] = []
split_inclusive (c ∷ s) =
    let rest = split_inclusive s in if c == 10 then (c ∷ []) ∷ rest else extend_line c rest

unfoldable pub strip_line_end : Text → Text
strip_line_end [] = []
strip_line_end (c ∷ []) = if c == 10 then [] else c ∷ []
strip_line_end (c ∷ (d ∷ [])) = if d == 10 then (if c == 13 then [] else c ∷ []) else c ∷ d ∷ []
strip_line_end (c ∷ (d ∷ (e ∷ r))) = c ∷ strip_line_end (d ∷ (e ∷ r))

abbrev pub strip_all : List Text → List Text
strip_all [] = []
strip_all (line ∷ rest) = strip_line_end line ∷ strip_all rest

unfoldable pub lines : Text → List Text
unfolding split_inclusive strip_line_end
lines s = strip_all (split_inclusive s)

any_sse_line : List Text → Bool
any_sse_line [] = false
any_sse_line (line ∷ rest) =
    (starts_with (lit "data:") line || starts_with (lit "event:") line) || any_sse_line rest

unfoldable pub looks_like_sse : Bytes → Bool
unfolding any_sse_line lines
looks_like_sse body = any_sse_line (lines (from_utf8_lossy (take 512 body)))

module _ (libs : Libs) where
  -- `items.push(parsed)`
  abbrev pub push_item : Values libs.Number → Value libs.Number → Values libs.Number
  push_item vs v = vs ++ v ∷ []

  -- The event of the data lines so far, for the items so far.
  unfoldable pub flush_sse_data : List Text × Values libs.Number → List Text × Values libs.Number
  unfolding flush
  flush_sse_data = flush libs push_item

  -- One line of the body, for the data lines so far and the caller's state.
  unfoldable pub sse_text_line :
      {S : Type 0} → (S → Value libs.Number → S) → Text → List Text × S → List Text × S
  unfolding flush data_line
  sse_text_line on_event line st =
      if is_empty line
      then flush libs on_event st
      else data_line libs on_event (strip_prefix (lit "data:") line) st

  unfoldable pub sse_text_lines :
      {S : Type 0} → (S → Value libs.Number → S) → List Text → List Text × S → List Text × S
  unfolding sse_text_line
  sse_text_lines on_event [] st = st
  sse_text_lines on_event (line ∷ rest) st =
      sse_text_lines on_event rest (sse_text_line on_event line st)

  unfoldable pub sse_items : Bytes → Values libs.Number
  unfolding sse_text_lines lines flush_sse_data
  sse_items body =
      (flush_sse_data (sse_text_lines push_item (lines (from_utf8_lossy body)) ([], []))).1

  unfoldable pub parse_sse_data : Bytes → Value libs.Number
  unfolding sse_items
  parse_sse_data body = array (items (sse_items body))

  abbrev pub chat_view : Value libs.Number → Value libs.Number
  chat_view parsed =
      if is_array parsed
      then OpenaiChat.aggregate libs parsed
      else pick_value OpenaiChat.response_keys parsed

  -- The arms of the match on the protocol and the kind of message.
  unfoldable pub view_of : Protocol → Kind → Value libs.Number → Option Text → Value libs.Number
  unfolding pick_value
  view_of openai_chat request parsed path = pick_value (lit "model" ∷ lit "messages" ∷ []) parsed
  view_of openai_chat response parsed path = chat_view parsed
  view_of openai_responses request parsed path = pick_value (lit "model" ∷ lit "input" ∷ []) parsed
  view_of openai_responses response parsed path = OpenaiResponses.view libs response parsed
  view_of anthropic kind parsed path = Anthropic.view libs kind parsed
  view_of gemini request parsed path = Gemini.request_view libs parsed path
  view_of gemini response parsed path = Gemini.view libs response parsed
  view_of dashscope request parsed path =
      pick_value (lit "model" ∷ lit "input" ∷ lit "system" ∷ lit "messages" ∷ []) parsed
  view_of dashscope response parsed path = Dashscope.view libs response parsed
  view_of bedrock request parsed path = Bedrock.request_view libs parsed path
  view_of bedrock response parsed path = Bedrock.view libs response parsed
  view_of cohere request parsed path =
      pick_value (lit "model" ∷ lit "messages" ∷ lit "message" ∷ []) parsed
  view_of cohere response parsed path = Cohere.view libs response parsed

  unfoldable pub field_view : Protocol → Kind → Bytes → Option Text → Value libs.Number
  unfolding view_of parse_sse_data parse_json_body looks_like_sse
  field_view protocol kind body upstream_path =
      view_of protocol kind
        (if looks_like_sse body then parse_sse_data body else parse_json_body libs body)
        upstream_path
