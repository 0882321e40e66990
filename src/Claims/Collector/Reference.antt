-- ===== src/Claims/Collector/Reference.antt =====
-- `FieldResponseCollector` and `build_field_claims` of enclave/src/main.rs: the claims of a response
-- that comes in chunks, and of the whole body.
use proof_of_observation.Base.{
  ℕ, ◌≡◌, refl, sym, ap, ◌∙◌, Bool, true, false, Option, some, List, [], ◌∷◌, Bytes, Bool-cases,
  inl, inr,
}
use proof_of_observation.Text.{Text}
use proof_of_observation.Json.{Value, Libs}
use proof_of_observation.Json.Merge.{and_then}
use proof_of_observation.Json.Presence.{Protocol, request, response, has_required_presence}
use proof_of_observation.Stream.Framing
use proof_of_observation.Stream.Framing.{Progress, joined}
use proof_of_observation.Stream.Sse.{sse_start, sse_push, sse_push_all}
use proof_of_observation.Aggregate.State
use proof_of_observation.Aggregate.State.{StreamState}
use proof_of_observation.Views.{field_view, looks_like_sse}
use proof_of_observation.Views.Response.{finish-field_view}
use proof_of_observation.Claims.{
  ReqHead, Policy, protocol_of_exchange, claims_of_bodies, build_field_claims,
  build_field_claims_from_views,
}
use proof_of_observation.Claims.Collector.{
  ResponseBody, streaming, Collector, sse_start_at, body_for, collector_for, new, push_body, push,
  push_all, finish_body, finish,
}

module _ (libs : Libs) where
  -- The claims of a response whose body comes in these chunks.
  abbrev pub collected :
      Policy → ReqHead → Text → ℕ → Bytes → Text → List Bytes → Option (Value libs.Number)
  collected env head norm_method status req_body content_type chunks =
      and_then (new libs env head req_body content_type)
        λ c. finish libs env head norm_method status (push_all libs chunks c)

  abbrev pub push_bodies : List Bytes → ResponseBody libs.Number → ResponseBody libs.Number
  push_bodies [] b = b
  push_bodies (chunk ∷ chunks) b = push_bodies chunks (push_body libs chunk b)

  push_all-push_bodies :
      (chunks : List Bytes) (c : Collector libs.Number)
      → push_all libs chunks c ≡ record c { body = push_bodies chunks c.body }
  unfolding push_all push
  push_all-push_bodies [] c = refl
  push_all-push_bodies (chunk ∷ chunks) c = push_all-push_bodies chunks (push libs chunk c)

  push_bodies-streaming :
      (chunks : List Bytes) (g : Progress (List Text × StreamState libs.Number))
      → push_bodies chunks (streaming g) ≡ streaming (sse_push_all libs (State.apply libs) chunks g)
  unfolding push_body sse_push_all Framing.push_all sse_push
  push_bodies-streaming [] g = refl
  push_bodies-streaming (chunk ∷ chunks) g =
      push_bodies-streaming chunks (sse_push libs (State.apply libs) chunk g)

  module _ (env : Policy) (head : ReqHead) (norm_method : Text) (status : ℕ) (req_body : Bytes)
      (content_type : Text) where
    abbrev req_view : Protocol → Value libs.Number
    req_view protocol = field_view libs protocol request req_body (some head.upstream.path)

    abbrev finish_with : Protocol → Value libs.Number × Bool → Option (Value libs.Number)
    finish_with protocol v =
        build_field_claims_from_views libs env head norm_method status protocol (req_view protocol)
          v.0 v.1

    abbrev pub resp_view : Protocol → Bytes → Value libs.Number × Bool
    resp_view protocol body =
        (field_view libs protocol response body (some head.upstream.path), looks_like_sse body)

    abbrev finish_chunks : List Bytes → Collector libs.Number → Option (Value libs.Number)
    finish_chunks chunks c = finish libs env head norm_method status (push_all libs chunks c)

    abbrev pub body_start : Protocol → ResponseBody libs.Number
    body_start = body_for libs head req_body content_type

    finish_present :
        (chunks : List Bytes) (protocol : Protocol)
        → has_required_presence protocol request (req_view protocol) ≡ true
        → and_then (collector_for libs head req_body content_type protocol) (finish_chunks chunks)
          ≡ and_then
              (finish_body libs head protocol (push_bodies chunks (body_start protocol)))
              (finish_with protocol)
    unfolding collector_for finish
    finish_present chunks protocol h = rw h (
        ap (finish libs env head norm_method status) (
          push_all-push_bodies chunks (record {
            protocol = protocol;
            req_view = req_view protocol;
            body = body_start protocol;
          })))

    finish_absent :
        (chunks : List Bytes) (protocol : Protocol) (v : Value libs.Number × Bool)
        → has_required_presence protocol request (req_view protocol) ≡ false
        → and_then (collector_for libs head req_body content_type protocol) (finish_chunks chunks)
          ≡ finish_with protocol v
    unfolding collector_for build_field_claims_from_views
    finish_absent chunks protocol v h = rw h refl

    -- The view of the response is the one that `build_field_claims` takes, when it is that of the body.
    pub collected_by_view :
        (chunks : List Bytes) (protocol : Protocol)
        → protocol_of_exchange libs env head req_body ≡ some protocol
        → finish_body libs head protocol (push_bodies chunks (body_start protocol))
          ≡ some (resp_view protocol (joined chunks))
        → collected env head norm_method status req_body content_type chunks
          ≡ build_field_claims libs env head norm_method status req_body (joined chunks)
    unfolding new build_field_claims claims_of_bodies
    collected_by_view chunks protocol e h =
        rw e (elim (Bool-cases (has_required_presence protocol request (req_view protocol))) [
          | inl present ↦
              finish_present chunks protocol present ∙ ap (λ o. and_then o (finish_with protocol)) h
          | inr absent ↦ finish_absent chunks protocol (resp_view protocol (joined chunks)) absent
        ])

    finish-streaming :
        (c : Bytes) (cs : List Bytes) (protocol : Protocol)
        → looks_like_sse (joined (c ∷ cs)) ≡ true
        → finish_body libs head protocol (push_bodies (c ∷ cs) (sse_start_at libs protocol))
          ≡ some (resp_view protocol (joined (c ∷ cs)))
    unfolding finish_body
    finish-streaming c cs protocol h =
        ap (finish_body libs head protocol)
          (push_bodies-streaming (c ∷ cs) (sse_start libs (State.apply libs) (State.new protocol)))
        ∙ ap (λ v. some (v, true))
            (finish-field_view libs protocol c cs (some head.upstream.path) h)
        ∙ ap
            (λ b.
              some
                (field_view libs protocol response (joined (c ∷ cs)) (some head.upstream.path), b))
            (sym h)

    -- If the exchange's protocol is known, the collector takes the response for an event stream from the
    -- start, and the whole body looks like one, then collecting the body in chunks, at least one, gives
    -- the same field claims, or the same lack of claims, as building them from the whole body.
    pub collected-streaming :
        (c : Bytes) (cs : List Bytes) (protocol : Protocol)
        → protocol_of_exchange libs env head req_body ≡ some protocol
        → body_start protocol ≡ sse_start_at libs protocol
        → looks_like_sse (joined (c ∷ cs)) ≡ true
        → collected env head norm_method status req_body content_type (c ∷ cs)
          ≡ build_field_claims libs env head norm_method status req_body (joined (c ∷ cs))
    collected-streaming c cs protocol e start h = collected_by_view (c ∷ cs) protocol e (
        ap (λ b. finish_body libs head protocol (push_bodies (c ∷ cs) b)) start
        ∙ finish-streaming c cs protocol h)
