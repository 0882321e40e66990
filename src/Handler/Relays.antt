-- ===== src/Handler/Relays.antt =====
-- What `handle` of enclave/src/main.rs has written on the control connection when it succeeds: the
-- head of the response, its body in frames, and a trailer about exactly these frames.
use proof_of_observation.Base.{
  ℕ, ◌≡◌, refl, ap, subst, ◌∙◌, Bool, true, false, Option, some, List, [], ◌++◌, Bytes, Result, ok,
  err, bind-eq-ok, ok_injective,
}
use proof_of_observation.Text.{Text}
use proof_of_observation.Wire.{write_frame, resp_head, resp_trailer}
use proof_of_observation.Profile.{TlsProfile}
use proof_of_observation.Hash.{sha256_hex}
use proof_of_observation.Json.{Libs}
use proof_of_observation.Json.Map.{insert_all}
use proof_of_observation.Json.Merge.{unwrap_or}
use proof_of_observation.Http.Input.{Input}
use proof_of_observation.Http.Head.{read_until_headers}
use proof_of_observation.Http.Headers.{parse_headers}
use proof_of_observation.Stream.Framing.{joined}
use proof_of_observation.Claims.{Policy}
use proof_of_observation.Claims.Collector.Reference.{collected}
use proof_of_observation.Trailer.{
  Control, send, ProofBackend, Answer, Tools, trailer_payload, write_attested_trailer,
}
use proof_of_observation.Handler.{
  header_values, H2Run, Outside, Relay, head_payload, stream_body, start_relay, answer_of, respond,
  h2_content_type, h2_on_head, h2_on_chunks, h2_respond, exchange, handle,
}
use proof_of_observation.Intake.{
  response_head, response_headers, response_body, write_resp_head, write_trailer, no_upstream,
  Order, Decoders, or_err, map_err, read_order,
}
use proof_of_observation.Intake.Guards.{or_err-ok}
use proof_of_observation.Handler.Relayed.{
  send-written, chunk_frames, Relayed, start-Relayed, stream_body-Relayed, h2_on_chunks-Relayed,
  claims-collected,
}

module _ (libs : Libs) (tools : Tools libs) (env : Policy) where
  -- The trailer's contents for a body that came in these chunks.
  abbrev pub answer_for : Order → ℕ → Text → List Bytes → Answer libs.Number
  answer_for order status content_type chunks = record {
    head = order.head;
    nonce_bytes = order.nonce_bytes;
    norm_method = tools.to_uppercase order.head.upstream.method;
    status = status;
    content_type = content_type;
    req_body_hex = sha256_hex libs order.body;
    resp_body_hex = sha256_hex libs (joined chunks);
    field_claims =
        collected libs env order.head (tools.to_uppercase order.head.upstream.method) status
          order.body content_type chunks;
  }

  -- The control connection was sent the head of a response, its body in frames, and a trailer whose
  -- digest and claims are those of the bytes in these frames.
  pub record Responded (backend : ProofBackend libs.Number) (order : Order) (before after : Control)
      : Type 0 where
    pub status : ℕ
    pub content_type : Text
    pub head_bytes : Bytes
    pub chunks : List Bytes
    pub text :
        after.written
        ≡ ((before.written ++ write_frame [] resp_head head_bytes) ++ chunk_frames chunks)
          ++ write_frame [] resp_trailer
              (trailer_payload libs tools backend (answer_for order status content_type chunks))

  answer-Relayed :
      (order : Order) (status : ℕ) (content_type : Text) (headed : Control)
      (r : Relay libs tools env)
      → (p : Relayed libs tools env (start_relay libs tools env order content_type headed) r)
      → answer_of libs tools env order status content_type r
        ≡ answer_for order status content_type p.chunks
  unfolding answer_of
  answer-Relayed order status content_type headed r p =
      rw (p.hashed, p.collected_by, claims-collected libs tools env) refl

  finished :
      (backend : ProofBackend libs.Number) (order : Order) (status : ℕ) (content_type : Text)
      (payload : Bytes) (before headed after : Control) (r : Relay libs tools env)
      → send resp_head payload before ≡ some headed
      → Relayed libs tools env (start_relay libs tools env order content_type headed) r
      → write_attested_trailer libs tools backend
          (answer_of libs tools env order status content_type r)
          r.control
        ≡ some after
      → Responded backend order before after
  unfolding write_attested_trailer
  finished backend order status content_type payload before headed after r h p e = record {
    status = status;
    content_type = content_type;
    head_bytes = payload;
    chunks = p.chunks;
    text =
        send-written resp_trailer _ r.control after e
        ∙ ap
            (λ z.
              z
              ++ write_frame [] resp_trailer (
                  trailer_payload libs tools backend
                    (answer_of libs tools env order status content_type r)))
            (p.written
              ∙ ap (λ z. z ++ chunk_frames p.chunks)
                  (send-written resp_head payload before headed h))
        ∙ ap
            (λ a.
              ((before.written ++ write_frame [] resp_head payload) ++ chunk_frames p.chunks)
              ++ write_frame [] resp_trailer (trailer_payload libs tools backend a))
            (answer-Relayed order status content_type headed r p);
  }

  map_err-ok : {E F A : Type 0} (f : E → F) (m : Result E A) (a : A) → map_err f m ≡ ok a → m ≡ ok a
  map_err-ok f (ok b) a h = ap ok (ok_injective b a h)
  map_err-ok f (err e) a h = cc

  respond-Responded :
      (backend : ProofBackend libs.Number) (order : Order) (input : Input) (before after : Control)
      → respond libs tools env backend order input before ≡ ok after
      → Responded backend order before after
  unfolding respond
  respond-Responded backend order input before after h =
      let (split, e₁, h₁) = bind-eq-ok (map_err response_head (read_until_headers input)) _ h in
      let (hs, e₂, h₂) =
        bind-eq-ok (map_err response_headers (parse_headers tools.to_lowercase split.0.0)) _ h₁ in
      let content_type = unwrap_or [] hs.content_type in
      let payload =
        head_payload libs tools env hs.status (header_values libs tools env hs.headers) in
      let (headed, e₃, h₃) =
        bind-eq-ok (or_err write_resp_head (send resp_head payload before)) _ h₂ in
      let start = start_relay libs tools env order content_type headed in
      let body = stream_body libs tools env hs split.0.1 split.1 start in
      let (r, e₄, h₄) = bind-eq-ok (map_err response_body body) _ h₃ in
      finished backend order hs.status content_type payload before headed after r
        (or_err-ok write_resp_head _ headed e₃)
        (stream_body-Relayed libs tools env hs split.0.1 split.1 start r
          (map_err-ok response_body body r e₄))
        (or_err-ok write_trailer _ after h₄)

  h2_respond-Responded :
      (backend : ProofBackend libs.Number) (order : Order) (run : H2Run) (before after : Control)
      → h2_respond libs tools env backend order run before ≡ ok after
      → Responded backend order before after
  unfolding h2_respond h2_on_head
  h2_respond-Responded backend order run before after h =
      let content_type = h2_content_type libs tools env [] run.headers in
      let payload =
        head_payload libs tools env run.status
          (insert_all [] (header_values libs tools env run.headers)) in
      let (start, e₁, h₁) =
        bind-eq-ok (h2_on_head libs tools env order run.status run.headers before) _ h in
      let (headed, e₂, h₂) =
        bind-eq-ok (or_err write_resp_head (send resp_head payload before)) _ e₁ in
      let body = h2_on_chunks libs tools env run.chunks start in
      let (r, e₃, h₃) = bind-eq-ok (map_err response_body body) _ h₁ in
      let (done, e₄, h₄) = bind-eq-ok (map_err no_upstream run.ending) _ h₃ in
      finished backend order run.status content_type payload before headed after r
        (or_err-ok write_resp_head _ headed e₂)
        (h2_on_chunks-Relayed libs tools env run.chunks
          (start_relay libs tools env order content_type headed) start r
          (subst (Relayed libs tools env (start_relay libs tools env order content_type headed))
            (ok_injective _ start h₂)
            (start-Relayed libs tools env (start_relay libs tools env order content_type headed)))
          (map_err-ok response_body body r e₃))
        (or_err-ok write_trailer _ after h₄)

  exchange-Responded :
      (outside : Outside) (decoders : Decoders) (backend : ProofBackend libs.Number) (order : Order)
      (profile : Option TlsProfile) (h2 : Bool) (before after : Control)
      → exchange libs tools env outside decoders backend order profile h2 before ≡ ok after
      → Responded backend order before after
  unfolding exchange
  exchange-Responded outside decoders backend order profile true before after h =
      let (run, e, later) =
        bind-eq-ok (map_err no_upstream (outside.h2_exchange profile order.head _ _ order.body)) _
          h in
      h2_respond-Responded backend order run before after later
  exchange-Responded outside decoders backend order profile false before after h =
      let (input, e, later) =
        bind-eq-ok (map_err no_upstream (outside.exchange profile _ order.head _)) _ h in
      respond-Responded backend order input before after later

  -- If `handle` succeeds, then the request was accepted, and what it wrote on the control connection
  -- is a head frame, frames with the pieces of a body, and a trailer frame, whose contents are those
  -- for the SHA-256 of exactly these pieces and for the field claims collected from them, over
  -- HTTP/1.1 and HTTP/2 alike.
  pub handle-Responded :
      (outside : Outside) (decoders : Decoders) (backend : ProofBackend libs.Number) (input : Bytes)
      (before after : Control)
      → handle libs tools env outside decoders backend input before ≡ ok after
      → (order : Order) × (read_order decoders input ≡ ok order)
        × Responded backend order before after
  unfolding handle
  handle-Responded outside decoders backend input before after h =
      let (order, e, later) = bind-eq-ok (read_order decoders input) _ h in
      (order, e, exchange-Responded outside decoders backend order _ _ before after later)
