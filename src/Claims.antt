-- ===== src/Claims.antt =====
-- The field claims of enclave/src/main.rs: `ReqHead`, `build_field_claims_from_views` and
-- `build_field_claims`, the claims of a request and a response whose bodies are at hand.
pub mod Collector
use proof_of_observation.Base.{
  ℕ, Bool, true, false, not, Option, none, some, List, [], ◌∷◌, ◌++◌, Bytes, ℤ, pos, equal,
  if◌then◌else◌,
}
use proof_of_observation.Text.{Text, lit, to_ascii_lowercase, to_ascii_uppercase}
use proof_of_observation.Text.Utf8.{as_bytes}
use proof_of_observation.Hash.{sha256_hex}
use proof_of_observation.Json.{Value, bool, number, string, object, Object, fields, Libs}
use proof_of_observation.Json.Map.{insert_all}
use proof_of_observation.Json.Merge.{and_then}
use proof_of_observation.Json.Canonical.{canonical_json}
use proof_of_observation.Json.Presence.{
  Protocol, openai_chat, openai_responses, anthropic, gemini, dashscope, bedrock, cohere, request,
  response, has_required_presence,
}
use proof_of_observation.Protocol.{detect_protocol_family}
use proof_of_observation.Views.{field_view, looks_like_sse}
use proof_of_observation.Statement.{path_no_query}

pub record Upstream : Type 0 where
  pub host : Text
  pub method : Text
  pub path : Text
  pub headers : List (Text × Text)
  pub headers_ordered : Option (List (List Text))

pub record ReqHead : Type 0 where
  pub nonce : Text
  pub egress_port : ℕ
  pub upstream : Upstream
  pub token : Option Text
  pub client_protocol_family : Option Text
  pub downstream_protocol_family : Option Text
  pub protocol_family : Option Text
  pub tls_seed : Option Text
  pub tls_spec : Option Text

-- What the process is started with: the variable FIELD_PROOF_PROTOCOL_FAMILY, and the field policy
-- registry, which `field_policy_registry` refuses unless it has a version for each protocol.
pub record Policy : Type 0 where
  pub env_family : Option Text
  pub policy : Text
  pub version : Protocol → Text

unfoldable pub protocol_name : Protocol → Text
protocol_name openai_chat = lit "openai.chat_completions"
protocol_name openai_responses = lit "openai.responses"
protocol_name anthropic = lit "anthropic.messages"
protocol_name gemini = lit "google.gemini.generate_content"
protocol_name dashscope = lit "alibaba.dashscope.generation"
protocol_name bedrock = lit "aws.bedrock.converse"
protocol_name cohere = lit "cohere.chat"

-- The protocol of a name that `detect_protocol_family` returns.
named : Text → List Protocol → Option Protocol
unfolding protocol_name
named t [] = none
named t (p ∷ ps) = if equal t (protocol_name p) then some p else named t ps

abbrev pub protocols : List Protocol
protocols = openai_chat ∷ openai_responses ∷ anthropic ∷ gemini ∷ dashscope ∷ bedrock ∷ cohere ∷ []

unfoldable pub protocol_of : Text → Option Protocol
unfolding named
protocol_of t = named t protocols

-- `a.as_deref().or(b.as_deref())`
abbrev pub or_option : Option Text → Option Text → Option Text
or_option none b = b
or_option (some a) b = some a

abbrev pub when : {A : Type 0} → Bool → Option A → Option A
when true o = o
when false o = none

module _ (libs : Libs) where
  -- The protocol of the exchange, from the request.
  unfoldable pub protocol_of_exchange : Policy → ReqHead → Bytes → Option Protocol
  unfolding protocol_of detect_protocol_family
  protocol_of_exchange env head req_body =
      let enhanced = or_option head.client_protocol_family head.downstream_protocol_family in
      let configured = or_option head.protocol_family env.env_family in
      and_then
        (detect_protocol_family libs head.upstream.host head.upstream.path req_body enhanced
          configured)
        protocol_of

  abbrev text_field : Text → Text → Text × Value libs.Number
  text_field k t = (k, string t)

  abbrev bool_field : Text → Bool → Text × Value libs.Number
  bool_field k b = (k, bool b)

  abbrev number_field : Text → ℕ → Text × Value libs.Number
  number_field k n = (k, number (libs.number_of (pos n)))

  -- `sha256_hex(canonical_json(view).as_bytes())`
  unfoldable pub view_hash : Value libs.Number → Text
  unfolding canonical_json
  view_hash view = sha256_hex libs (as_bytes (canonical_json libs view))

  unfoldable pub claims_object :
      Policy
      → ReqHead
      → Text
      → ℕ
      → Protocol
      → Value libs.Number
      → Value libs.Number
      → Bool
      → Value libs.Number
  unfolding view_hash protocol_name path_no_query to_ascii_lowercase to_ascii_uppercase
  claims_object env head norm_method status protocol req_view resp_view streaming =
      let name = protocol_name protocol in
      object (
        fields (
          insert_all [] (
            number_field (lit "v") 1
            ∷ text_field (lit "proof_type") (lit "field-proof")
            ∷ text_field (lit "nonce") head.nonce
            ∷ text_field (lit "protocol_family") name
            ∷ text_field (lit "assurance_level") (lit "strong")
            ∷ text_field (lit "verification_mode") (lit "field_claims")
            ∷ bool_field (lit "cross_protocol") false
            ∷ bool_field (lit "semantic_equivalence_not_proven") false
            ∷ text_field (lit "request_schema_version") (name ++ lit ".v1")
            ∷ text_field (lit "response_schema_version") (name ++ lit ".v1")
            ∷ text_field (lit "upstream_host") (to_ascii_lowercase head.upstream.host)
            ∷ text_field (lit "upstream_path") (path_no_query head.upstream.path)
            ∷ text_field (lit "http_method") (to_ascii_uppercase norm_method)
            ∷ number_field (lit "http_status") status
            ∷ text_field (lit "field_policy_id")
                (name ++ (lit "." ++ (env.policy ++ (lit "@" ++ env.version protocol))))
            ∷ text_field (lit "upstream_request_fields_sha256") (view_hash req_view)
            ∷ text_field (lit "upstream_response_fields_sha256") (view_hash resp_view)
            ∷ text_field (lit "request_body_sha256_severity") (lit "advisory")
            ∷ text_field (lit "response_body_sha256_severity") (lit "advisory")
            ∷ text_field (lit "body_hash_policy") (lit "advisory")
            ∷ bool_field (lit "streaming") streaming
            ∷ [])))

  -- No claims without the required fields on both sides.
  unfoldable pub build_field_claims_from_views :
      Policy
      → ReqHead
      → Text
      → ℕ
      → Protocol
      → Value libs.Number
      → Value libs.Number
      → Bool
      → Option (Value libs.Number)
  unfolding claims_object has_required_presence
  build_field_claims_from_views env head norm_method status protocol req_view resp_view streaming =
      when (has_required_presence protocol request req_view) (
        when (has_required_presence protocol response resp_view)
          (some (claims_object env head norm_method status protocol req_view resp_view streaming)))

  -- The claims for a protocol, from both bodies.
  unfoldable pub claims_of_bodies :
      Policy → ReqHead → Text → ℕ → Bytes → Bytes → Protocol → Option (Value libs.Number)
  unfolding build_field_claims_from_views field_view looks_like_sse
  claims_of_bodies env head norm_method status req_body resp_body protocol =
      let path = some head.upstream.path in
      build_field_claims_from_views env head norm_method status protocol
        (field_view libs protocol request req_body path)
        (field_view libs protocol response resp_body path) (looks_like_sse resp_body)

  unfoldable pub build_field_claims :
      Policy → ReqHead → Text → ℕ → Bytes → Bytes → Option (Value libs.Number)
  unfolding protocol_of_exchange claims_of_bodies
  build_field_claims env head norm_method status req_body resp_body =
      and_then (protocol_of_exchange env head req_body)
        (claims_of_bodies env head norm_method status req_body resp_body)
