-- ===== src/Trailer.antt =====
-- The trailer behind a response, in enclave/src/main.rs: `write_attested_trailer` with its two
-- backends, and the payload that says that there is no proof. What they call of the standard library
-- (`to_lowercase`, `to_uppercase`), of `serde_json` (`Value::to_string`), of `base64` and of
-- `ed25519_dalek`, the evidence device and the helper process are parameters. A control connection is
-- the bytes that were written, and the frames that the peer still takes: a write behind them fails.
-- The counters of attestations and of their time are left out.
use proof_of_observation.Base.{
  ℕ, zero, suc, false, Option, none, some, List, [], ◌∷◌, Bytes, pos, equal, if◌then◌else◌, Result,
  ok, err,
}
use proof_of_observation.Text.{Text, lit, to_ascii_lowercase, to_ascii_uppercase}
use proof_of_observation.Text.Utf8.{as_bytes}
use proof_of_observation.Wire.{write_frame, resp_trailer}
use proof_of_observation.Json.{Value, bool, number, string, object, Object, fields, Libs}
use proof_of_observation.Json.Map.{insert, insert_all}
use proof_of_observation.Statement.{Exchange, build_v2_statement, path_no_query, no_crlf}
use proof_of_observation.Claims.{ReqHead, view_hash}

pub record Control : Type 0 where
  pub written : Bytes
  pub room : ℕ

abbrev pub send_into : ℕ → ℕ → Bytes → Bytes → Option Control
send_into zero t payload written = none
send_into (suc room) t payload written =
    some (record { written = write_frame written t payload; room = room })

-- `write_frame` on the control connection
unfoldable pub send : ℕ → Bytes → Control → Option Control
unfolding write_frame
send t payload c = send_into c.room t payload c.written

pub record Evidence : Type 0 where
  pub profile : Text
  pub attestation : Bytes
  pub pcr0 : Option Text
  pub pcr8 : Option Text
  pub measurements : List (Text × Text)

-- `LocalEvidenceBackend`: the key's encoding, its signatures, and the device.
pub record LocalEvidence : Type 0 where
  pub spki : Bytes
  pub sign : Bytes → Bytes
  pub attest : Bytes → Bytes → Result Text Evidence

-- `ProofRequest` of enclave/src/aliyun_helper.rs
pub record ProofRequest (N : Type 0) : Type 0 where
  pub v : ℕ
  pub nonce_b64 : Text
  pub upstream_host : Text
  pub upstream_path : Text
  pub http_method : Text
  pub http_status : ℕ
  pub resp_content_type : Text
  pub request_body_sha256 : Text
  pub response_body_sha256 : Text
  pub field_claims : Option (Value N)

pub data ProofBackend (N : Type 0) : Type 0 where
  local_evidence : LocalEvidence → ProofBackend N
  aliyun_vtpm : (ProofRequest N → Result Text Bytes) → ProofBackend N

-- What the trailer says of the exchange; `head` and the hashes are arguments of every writer.
pub record Answer (N : Type 0) : Type 0 where
  pub head : ReqHead
  pub nonce_bytes : Bytes
  pub norm_method : Text
  pub status : ℕ
  pub content_type : Text
  pub req_body_hex : Text
  pub resp_body_hex : Text
  pub field_claims : Option (Value N)

module _ (libs : Libs) where
  -- What else the trailer calls of libraries.
  pub record Tools : Type 0 where
    pub to_lowercase : Text → Text
    pub to_uppercase : Text → Text
    pub to_json : Value libs.Number → Text
    pub b64_encode : Bytes → Text

  abbrev A : Type 0
  A = Answer libs.Number

  abbrev text_field : Text → Text → Text × Value libs.Number
  text_field k t = (k, string t)

  abbrev number_field : Text → ℕ → Text × Value libs.Number
  number_field k n = (k, number (libs.number_of (pos n)))

  unfoldable pub build_proof_unavailable_payload : A → Text → Text → Value libs.Number
  unfolding path_no_query to_ascii_lowercase to_ascii_uppercase insert_all
  build_proof_unavailable_payload a code message = object (
      fields (
        insert_all [] (
          text_field (lit "type") (lit "tee.proof_unavailable")
          ∷ text_field (lit "code") code
          ∷ text_field (lit "message") message
          ∷ (lit "attested", bool false)
          ∷ text_field (lit "upstream_host") (to_ascii_lowercase a.head.upstream.host)
          ∷ text_field (lit "upstream_path") (path_no_query a.head.upstream.path)
          ∷ text_field (lit "http_method") (to_ascii_uppercase a.norm_method)
          ∷ number_field (lit "http_status") a.status
          ∷ text_field (lit "resp_content_type") a.content_type
          ∷ text_field (lit "request_body_sha256") a.req_body_hex
          ∷ text_field (lit "response_body_sha256") a.resp_body_hex
          ∷ [])))

  abbrev insert_some : Text → Option (Value libs.Number) → Object libs.Number → Object libs.Number
  insert_some k none m = m
  insert_some k (some v) m = insert k v m

  abbrev text_value : Option Text → Option (Value libs.Number)
  text_value none = none
  text_value (some t) = some (string t)

  abbrev text_values : List (Text × Text) → Object libs.Number
  text_values [] = []
  text_values ((k, t) ∷ rest) = (k, string t) ∷ text_values rest

  -- Measurements are left out when there are none.
  abbrev measurements_value : List (Text × Text) → Option (Value libs.Number)
  measurements_value [] = none
  measurements_value (m ∷ rest) = some (object (fields (text_values (m ∷ rest))))

  abbrev claims_digest : Option (Value libs.Number) → Option Text
  claims_digest none = none
  claims_digest (some claims) = some (view_hash libs claims)

  module _ (tools : Tools) where
    abbrev norm_host : A → Text
    norm_host a = tools.to_lowercase a.head.upstream.host

    -- The statement of the exchange.
    abbrev pub exchange_of : A → Exchange
    exchange_of a = record {
      nonce_b64 = a.head.nonce;
      upstream_host = norm_host a;
      upstream_path = path_no_query a.head.upstream.path;
      http_method = a.norm_method;
      http_status = a.status;
      resp_content_type = a.content_type;
      request_body_sha256_hex = a.req_body_hex;
      response_body_sha256_hex = a.resp_body_hex;
      claims_sha256_hex = claims_digest a.field_claims;
    }

    unfoldable pub statement_of : A → Bytes
    unfolding build_v2_statement
    statement_of a = build_v2_statement tools.to_lowercase tools.to_uppercase (exchange_of a)

    unfoldable pub attested_trailer : LocalEvidence → Evidence → A → Value libs.Number
    unfolding statement_of path_no_query insert_all insert
    attested_trailer device evidence a =
        let trailer = insert_all [] (
          number_field (lit "v") 2
          ∷ text_field (lit "alg") (lit "ed25519")
          ∷ text_field (lit "public_key") (tools.b64_encode device.spki)
          ∷ text_field (lit "nonce") a.head.nonce
          ∷ text_field (lit "upstream_host") (norm_host a)
          ∷ text_field (lit "upstream_path") (path_no_query a.head.upstream.path)
          ∷ text_field (lit "http_method") a.norm_method
          ∷ number_field (lit "http_status") a.status
          ∷ text_field (lit "resp_content_type") a.content_type
          ∷ text_field (lit "request_body_sha256") a.req_body_hex
          ∷ text_field (lit "response_body_sha256") a.resp_body_hex
          ∷ text_field (lit "signature") (tools.b64_encode (device.sign (statement_of a)))
          ∷ text_field (lit "attestation") (tools.b64_encode evidence.attestation)
          ∷ []) in
        let profile =
          if equal evidence.profile (lit "nitro") then none else some (string evidence.profile) in
        let t₁ = insert_some (lit "profile") profile trailer in
        let t₂ = insert_some (lit "pcr0") (text_value evidence.pcr0) t₁ in
        let t₃ = insert_some (lit "pcr8") (text_value evidence.pcr8) t₂ in
        let t₄ = insert_some (lit "measurements") (measurements_value evidence.measurements) t₃ in
        object (fields (insert_some (lit "field_claims") a.field_claims t₄))

    unfoldable pub proof_request : A → ProofRequest libs.Number
    unfolding path_no_query
    proof_request a = record {
      v = 1;
      nonce_b64 = a.head.nonce;
      upstream_host = norm_host a;
      upstream_path = path_no_query a.head.upstream.path;
      http_method = a.norm_method;
      http_status = a.status;
      resp_content_type = a.content_type;
      request_body_sha256 = a.req_body_hex;
      response_body_sha256 = a.resp_body_hex;
      field_claims = a.field_claims;
    }

    abbrev json_bytes : Value libs.Number → Bytes
    json_bytes v = as_bytes (tools.to_json v)

    -- What the trailer's frame holds.
    abbrev unavailable : A → Text → Text → Bytes
    unavailable a code message = json_bytes (build_proof_unavailable_payload a code message)

    abbrev local_payload : LocalEvidence → A → Result Text Evidence → Bytes
    local_payload device a (ok evidence) = json_bytes (attested_trailer device evidence a)
    local_payload device a (err message) = unavailable a (lit "attestation_failed") message

    abbrev helper_payload : A → Result Text Bytes → Bytes
    helper_payload a (ok proof) = proof
    helper_payload a (err message) = unavailable a (lit "attestation_failed") message

    abbrev pub backend_payload : ProofBackend libs.Number → A → Bytes
    backend_payload (local_evidence device) a =
        local_payload device a (device.attest device.spki a.nonce_bytes)
    backend_payload (aliyun_vtpm request_proof) a =
        helper_payload a (request_proof (proof_request a))

    unfoldable pub trailer_payload : ProofBackend libs.Number → A → Bytes
    unfolding attested_trailer proof_request build_proof_unavailable_payload no_crlf
    trailer_payload backend a =
        if no_crlf a.content_type
        then backend_payload backend a
        else unavailable a (lit "invalid_content_type") (lit "上游 content-type 含非法 CR/LF")

    unfoldable pub write_attested_trailer : ProofBackend libs.Number → A → Control → Option Control
    unfolding trailer_payload send
    write_attested_trailer backend a = send resp_trailer (trailer_payload backend a)
