-- ===== src/Protocol.antt =====
-- Which protocol family an exchange speaks, and whether it streams, in enclave/src/main.rs:
-- `detect_protocol_family`, `normalize_protocol_family`, the predicates on paths, content types and
-- bodies, and `parse_json_body`. `serde_json::from_slice` is `from_str` on UTF-8.
pub mod Total
pub mod Sniff
use proof_of_observation.Base.{
  ℕ, Bool, true, false, not, ◌&&◌, ◌||◌, Option, none, some, List, [], ◌∷◌, Bytes, take, equal,
  ◌==◌, if◌then◌else◌,
}
use proof_of_observation.Text.{
  Text, lit, to_ascii_lowercase, trim, trim_start, trim_start_matches, is_whitespace, is_empty,
  contains, ends_with, starts_with, eq_ignore_ascii_case, split_on,
}
use proof_of_observation.Text.Utf8.{from_utf8, from_utf8_lossy}
use proof_of_observation.Json.{
  Value, null, bool, string, object, fields, as_object, as_array, as_str, as_bool, entries, Libs,
}
use proof_of_observation.Json.Map.{get, insert}
use proof_of_observation.Hash.{sha256_hex}
use proof_of_observation.Statement.{path_no_query}

-- `SUPPORTED_PROTOCOLS`
abbrev pub supported_protocols : List Text
supported_protocols =
    lit "openai.chat_completions"
    ∷ lit "openai.responses"
    ∷ lit "anthropic.messages"
    ∷ lit "google.gemini.generate_content"
    ∷ lit "alibaba.dashscope.generation"
    ∷ lit "aws.bedrock.converse"
    ∷ lit "cohere.chat"
    ∷ []

-- The arms of a `match` on a text, each of which returns that text.
unfoldable pub same_name : Text → List Text → Option Text
same_name value [] = none
same_name value (name ∷ names) = if equal value name then some name else same_name value names

unfoldable pub normalize_protocol_family : Text → Option Text
unfolding same_name
normalize_protocol_family value = same_name (to_ascii_lowercase (trim value)) supported_protocols

-- The tests on the host and on the path, in order.
unfoldable pub family_of_route : Text → Text → Option Text
family_of_route h p =
    if contains (lit "/chat/completions") p
    then some (lit "openai.chat_completions")
    else if ends_with (lit "/responses") p || contains (lit "/responses") p
    then some (lit "openai.responses")
    else if ends_with (lit "/messages") p || contains (lit "anthropic") h
    then some (lit "anthropic.messages")
    else if contains (lit ":generatecontent") p || contains (lit "generatecontent") p
    then some (lit "google.gemini.generate_content")
    else if contains (lit "/services/aigc/text-generation/generation") p
    then some (lit "alibaba.dashscope.generation")
    else if contains (lit "/converse") p
    then some (lit "aws.bedrock.converse")
    else if ends_with (lit "/chat") p || (contains (lit "/v2/chat") p || contains (lit "cohere") h)
    then some (lit "cohere.chat")
    else none

-- `Option::or_else`, `and_then`
abbrev pub or_else {ℓ} : {A : Type ℓ} → Option A → Option A → Option A
or_else none b = b
or_else (some a) b = some a

abbrev pub and_then {ℓ κ} : {A : Type ℓ} {B : Type κ} → Option A → (A → Option B) → Option B
and_then none f = none
and_then (some a) f = f a

abbrev pub is_some {ℓ} : {A : Type ℓ} → Option A → Bool
is_some none = false
is_some (some a) = true

abbrev pub unwrap_or {ℓ} : {A : Type ℓ} → Option A → A → A
unwrap_or none d = d
unwrap_or (some a) d = a

-- `content_type.split(';').next()`, trimmed, against a media type.
abbrev first_is : Text → List Text → Bool
first_is media [] = false
first_is media (v ∷ vs) = eq_ignore_ascii_case (trim v) media

unfoldable pub is_sse_content_type : Text → Bool
is_sse_content_type content_type = first_is (lit "text/event-stream") (split_on b';' content_type)

unfoldable pub is_aws_event_stream_content_type : Text → Bool
is_aws_event_stream_content_type content_type =
    first_is (lit "application/vnd.amazon.eventstream") (split_on b';' content_type)

unfoldable pub path_is_bedrock_converse_stream : Text → Bool
path_is_bedrock_converse_stream path =
    contains (lit "/converse-stream") (to_ascii_lowercase (path_no_query path))

unfoldable pub path_indicates_gemini_stream : Text → Bool
path_indicates_gemini_stream path =
    let lower = to_ascii_lowercase path in
    contains (lit "alt=sse") lower
    || (contains (lit ":streamgeneratecontent") lower
        || contains (lit "/streamgeneratecontent") lower)

abbrev pub max_stream_sniff_bytes : ℕ
max_stream_sniff_bytes = 4096

abbrev pub space_or_bom : ℕ → Bool
space_or_bom c = is_whitespace c || c == 0xfeff

unfoldable pub body_prefix_indicates_sse : Bytes → Bool
body_prefix_indicates_sse body =
    let trimmed =
      trim_start_matches space_or_bom (from_utf8_lossy (take max_stream_sniff_bytes body)) in
    starts_with (lit "data:") trimmed
    || (starts_with (lit "event:") trimmed || starts_with (lit ":") trimmed)

module _ {N : Type 0} where
  -- `Value::get` with a key
  abbrev pub member : Text → Value N → Option (Value N)
  member key (object fs) = get key (entries fs)
  member key _ = none

  -- The tests on the request's body, in order.
  unfoldable pub family_of_body : Value N → Option Text
  family_of_body parsed =
      let messages = is_some (and_then (member (lit "messages") parsed) as_array) in
      let model = is_some (and_then (member (lit "model") parsed) as_str) in
      if messages && (model && is_some (member (lit "max_tokens") parsed))
      then some (lit "anthropic.messages")
      else if messages && model
      then some (lit "openai.chat_completions")
      else if is_some (member (lit "input") parsed) && model
      then some (lit "openai.responses")
      else if is_some (member (lit "contents") parsed)
      then some (lit "google.gemini.generate_content")
      else none

module _ (libs : Libs) where
  -- `serde_json::from_slice`
  abbrev pub from_slice : Bytes → Option (Value libs.Number)
  from_slice body = and_then (from_utf8 body) libs.from_str

  unfoldable pub detect_protocol_family :
      Text → Text → Bytes → Option Text → Option Text → Option Text
  unfolding normalize_protocol_family family_of_route family_of_body
  detect_protocol_family host path body enhanced configured =
      or_else (family_of_route (to_ascii_lowercase host) (to_ascii_lowercase (path_no_query path)))
        (or_else (and_then enhanced normalize_protocol_family) (
          or_else (and_then configured normalize_protocol_family)
            (and_then (from_slice body) family_of_body)))

  unfoldable pub parse_json_body : Bytes → Value libs.Number
  parse_json_body body =
      let trimmed = trim (from_utf8_lossy body) in
      if is_empty trimmed then null else unwrap_or (libs.from_str trimmed) (invalid_json body)
    where
      invalid_json : Bytes → Value libs.Number
      invalid_json body = object (
          fields (
            insert (lit "parse_error") (string (lit "invalid_json"))
              (insert (lit "raw_sha256") (string (sha256_hex libs body)) [])))

  abbrev stream_flag : Option (Value libs.Number) → Bool
  stream_flag v = unwrap_or (and_then v as_bool) false

  abbrev body_flag : Value libs.Number → Bool
  body_flag parsed = stream_flag (member (lit "stream") parsed)

  abbrev parameters_flag : Value libs.Number → Bool
  parameters_flag parsed =
      stream_flag
        (and_then (and_then (member (lit "parameters") parsed) as_object) (get (lit "stream")))

  unfoldable pub request_indicates_streaming : Text → Bytes → Text → Bool
  unfolding parse_json_body path_indicates_gemini_stream path_is_bedrock_converse_stream
  request_indicates_streaming protocol req_body upstream_path =
      if equal protocol (lit "openai.chat_completions")
        || (equal protocol (lit "openai.responses")
            || (equal protocol (lit "anthropic.messages") || equal protocol (lit "cohere.chat")))
      then body_flag (parse_json_body req_body)
      else if equal protocol (lit "alibaba.dashscope.generation")
      then parameters_flag (parse_json_body req_body)
      else if equal protocol (lit "google.gemini.generate_content")
      then path_indicates_gemini_stream upstream_path
      else if equal protocol (lit "aws.bedrock.converse")
      then path_is_bedrock_converse_stream upstream_path
      else false
