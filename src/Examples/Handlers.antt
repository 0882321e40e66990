-- ===== src/Examples/Handlers.antt =====
-- Examples for the control connection and the helper of enclave/src.
use proof_of_observation.Base.{
  ℕ, ◌≡◌, refl, true, none, some, [], ◌∷◌, ◌++◌, arith, Bytes, Result, ok, err,
}
use proof_of_observation.Text.{lit, to_ascii_lowercase}
use proof_of_observation.Text.Utf8.{as_bytes, encode_char}
use proof_of_observation.Words.{be32}
use proof_of_observation.Wire.{write_frame, req_head, req_body}
use proof_of_observation.Statement.{no_crlf, any_crlf}
use proof_of_observation.Http.Find.{find}
use proof_of_observation.Http.Input.{segment, read, size}
use proof_of_observation.Http.Headers.{split_crlf}
use proof_of_observation.Http.Request.Plain.{build_request_head}
use proof_of_observation.Trailer.{
  Control, Evidence, ProofBackend, local_evidence, Tools, ProofRequest,
}
use proof_of_observation.Helper
use proof_of_observation.Helper.{HelperResponse, HelperError, request_proof, request_proof-answered}
use proof_of_observation.Handler.{Outside, handle}
use proof_of_observation.Intake.{Order, Decoders, read_order, headers_no_crlf}
use proof_of_observation.Intake.Guards.{IsGuarded, IsClean, read_order-IsClean, read_order-accepts}
use proof_of_observation.Handler.Relays.{Responded, handle-Responded}
use proof_of_observation.Handler.Requests.{head_lines, split_crlf-build_request_head}
use proof_of_observation.Examples.Exchanges.{libs, head, env}

abbrev tools : Tools libs
tools = record {
  to_lowercase = to_ascii_lowercase;
  to_uppercase = λ t. t;
  to_json = λ v. lit "{}";
  b64_encode = λ b. b;
}

abbrev decoders : Decoders
decoders = record { head_of = λ b. some head; b64_decode = λ t. some t }

abbrev order : Order
order = record { head = head; body = lit "{}"; nonce_bytes = lit "n" }

abbrev control_input : Bytes
control_input = write_frame [] req_head (lit "{}") ++ (write_frame [] req_body (lit "{}") ++ [])

guarded : IsGuarded decoders order
unfolding no_crlf any_crlf as_bytes encode_char headers_no_crlf
guarded = record { upstream = refl; headers = refl; token = refl; nonce = refl }

read_order-accepts_example : read_order decoders control_input ≡ ok order
read_order-accepts_example =
    read_order-accepts decoders (lit "{}") [] order (omega arith) (omega arith) refl guarded

reads : read_order decoders control_input ≡ ok order
unfolding read_order no_crlf any_crlf as_bytes encode_char write_frame be32
reads = refl

read_order-IsClean_example : IsClean decoders order
read_order-IsClean_example = read_order-IsClean decoders control_input order reads

split_crlf-build_request_head_example :
    split_crlf (
      build_request_head to_ascii_lowercase
        (some (lit "t"))
        2
        (lit "POST")
        (lit "/v1")
        (lit "h")
        ((lit "a", lit "b") ∷ []))
    ≡ head_lines to_ascii_lowercase
        (some (lit "t"))
        2
        (lit "POST")
        (lit "/v1")
        (lit "h")
        ((lit "a", lit "b") ∷ [])
      ++ ([] ∷ [])
unfolding no_crlf any_crlf as_bytes encode_char headers_no_crlf
split_crlf-build_request_head_example =
    split_crlf-build_request_head to_ascii_lowercase (some (lit "t")) 2 (lit "POST") (lit "/v1")
      (lit "h") ((lit "a", lit "b") ∷ []) refl refl refl refl refl

-- A device that always attests.
abbrev evidence : Evidence
evidence = record {
  profile = lit "nitro";
  attestation = 1 ∷ [];
  pcr0 = none;
  pcr8 = none;
  measurements = [];
}

abbrev backend : ProofBackend ℕ
backend =
    local_evidence (record { spki = 2 ∷ []; sign = λ b. b; attest = λ spki nonce. ok evidence })

abbrev response : Bytes
response =
    lit "HTTP/1.1 200 OK" ++ (13 ∷ 10 ∷ (lit "content-length: 2" ++ (13 ∷ 10 ∷ 13 ∷ 10 ∷ lit "hi")))

abbrev outside : Outside
outside = record {
  exchange = λ profile seed head request. ok (segment response ∷ []);
  h2_exchange = λ profile head method headers body. err (lit "no h2");
}

abbrev before : Control
before = record { written = []; room = 9 }

abbrev control_or : {E : Type 0} → Control → Result E Control → Control
control_or c (ok c') = c'
control_or c (err e) = c

abbrev after : Control
after = control_or before (handle libs tools env outside decoders backend control_input before)

runs : handle libs tools env outside decoders backend control_input before ≡ ok after
unfolding handle be32 as_bytes encode_char find read size
runs = refl

handle-Responded_example :
    (order : Order) × (read_order decoders control_input ≡ ok order)
    × Responded libs tools env backend order before after
handle-Responded_example =
    handle-Responded libs tools env outside decoders backend control_input before after runs

abbrev answer : Bytes
answer = lit "{}"

abbrev success : HelperResponse
success = record { v = 1; is_ok = true; proof = some (7 ∷ []); error = none }

abbrev helper_request : Bytes
helper_request = 0 ∷ 0 ∷ 0 ∷ 1 ∷ 5 ∷ []

abbrev helper_answer : Bytes
helper_answer = 0 ∷ 0 ∷ 0 ∷ 2 ∷ answer

abbrev helper : Bytes → Bytes
helper sent = helper_answer ++ (9 ∷ [])

abbrev proof_request : ProofRequest ℕ
proof_request = record {
  v = 1;
  nonce_b64 = lit "n";
  upstream_host = lit "h";
  upstream_path = lit "/";
  http_method = lit "POST";
  http_status = 200;
  resp_content_type = [];
  request_body_sha256 = [];
  response_body_sha256 = [];
  field_claims = none;
}

request_proof-answered_example :
    request_proof (λ r. 5 ∷ []) (λ b. some success) (some helper) proof_request ≡ ok (7 ∷ [])
unfolding Helper.write_frame be32
request_proof-answered_example =
    request_proof-answered (λ r. 5 ∷ []) (λ b. some success) helper proof_request helper_request
      answer helper_answer (9 ∷ []) (7 ∷ []) none refl (omega arith) refl refl refl
