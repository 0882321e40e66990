-- ===== src/Claims/Collector/Sniffing.antt =====
-- `FieldResponseCollector` of enclave/src/main.rs on a response of which neither the content type nor
-- the request says that it streams: the body's start decides.
use proof_of_observation.Base.{
  ℕ, ◌-◌, ◌≤◌, ◌≡◌, refl, sym, subst, ap, ◌∙◌, ◌⊎◌, inl, inr, true, false, Option, some, List, [],
  ◌∷◌, ◌++◌, append-nil, append_assoc, arith, Bytes, length, length-append, take, ltb,
  if◌then◌else◌, Bool-cases,
}
use proof_of_observation.Text.{Text, trim_start_matches, starts_with}
use proof_of_observation.Text.Utf8.{from_utf8_lossy}
use proof_of_observation.Json.{Libs}
use proof_of_observation.Json.Presence.{Protocol, response}
use proof_of_observation.Protocol.{body_prefix_indicates_sse}
use proof_of_observation.Protocol.Sniff.{body_prefix_indicates_sse-append}
use proof_of_observation.Stream.Framing
use proof_of_observation.Stream.Framing.{Progress, joined, push-append}
use proof_of_observation.Stream.Capture.{
  nothing_captured, capture_within, capture_field_body, max_field_claims_capture,
}
use proof_of_observation.Stream.Sse
use proof_of_observation.Stream.Sse.{sse_line, sse_start, sse_push, sse_push_all, sse_finish}
use proof_of_observation.Aggregate.State
use proof_of_observation.Aggregate.State.{StreamState}
use proof_of_observation.Views.{field_view, looks_like_sse}
use proof_of_observation.Views.Response.{finish-field_view}
use proof_of_observation.Claims.{ReqHead, Policy, protocol_of_exchange, build_field_claims}
use proof_of_observation.Claims.Collector.{
  ResponseBody, streaming, sniffing, sniff, body_for, push_body, finish_body,
}
use proof_of_observation.Claims.Collector.Reference.{collected, collected_by_view, push_bodies}

capture_fits :
    (all chunk : Bytes)
    → length (all ++ chunk) ≤ max_field_claims_capture
    → capture_field_body chunk (record { body = all; truncated = false })
      ≡ record { body = all ++ chunk; truncated = false }
unfolding capture_field_body capture_within
capture_fits all chunk h =
    ap
      (λ b.
        if b
        then record {
          body = all ++ take (max_field_claims_capture - length all) chunk;
          truncated = true;
        }
        else record { body = all ++ chunk; truncated = false })
      fits
  where
    fits : ltb (max_field_claims_capture - length all) (length chunk) ≡ false
    fits = ground (arith, length-append all chunk)

nothing_indicates : body_prefix_indicates_sse [] ≡ false
unfolding body_prefix_indicates_sse trim_start_matches starts_with from_utf8_lossy
nothing_indicates = refl

module _ (libs : Libs) (state : StreamState libs.Number) where
  abbrev parsed : Bytes → Progress (List Text × StreamState libs.Number)
  parsed all = sse_push libs (State.apply libs) all (sse_start libs (State.apply libs) state)

  -- What the collector has become, after the bytes `all`.
  abbrev Sniffed : Bytes → ResponseBody libs.Number → Type 0
  Sniffed all b =
      ((body_prefix_indicates_sse all ≡ false)
        × (b ≡ sniffing (record { body = all; truncated = false }) (some state)))
      ⊎ ((body_prefix_indicates_sse all ≡ true) × (b ≡ streaming (parsed all)))

  sniff-Sniffed :
      (all : Bytes)
      → Sniffed all (sniff libs (record { body = all; truncated = false }) (some state))
  unfolding sniff
  sniff-Sniffed all = elim (Bool-cases (body_prefix_indicates_sse all)) [
    | inl h ↦ inr (h, rw h refl)
    | inr h ↦ inl (h, rw h refl)
  ]

  push-Sniffed :
      (all chunk : Bytes) (b : ResponseBody libs.Number)
      → length (all ++ chunk) ≤ max_field_claims_capture
      → Sniffed all b
      → Sniffed (all ++ chunk) (push_body libs chunk b)
  unfolding push_body sse_push
  push-Sniffed all chunk b h (inl (differs, e)) =
      subst (λ z. Sniffed (all ++ chunk) (push_body libs chunk z)) (sym e)
        (subst (λ c. Sniffed (all ++ chunk) (sniff libs c (some state)))
          (sym (capture_fits all chunk h)) (sniff-Sniffed (all ++ chunk)))
  push-Sniffed all chunk b h (inr (ok, e)) = inr (
    body_prefix_indicates_sse-append all chunk ok,
    ap (push_body libs chunk) e
        ∙ ap streaming (
            sym (
              push-append Sse.lines (sse_line libs (State.apply libs)) all chunk
                (sse_start libs (State.apply libs) state))),
  )

  push_bodies-Sniffed :
      (chunks : List Bytes) (all : Bytes) (b : ResponseBody libs.Number)
      → length (all ++ joined chunks) ≤ max_field_claims_capture
      → Sniffed all b
      → Sniffed (all ++ joined chunks) (push_bodies libs chunks b)
  push_bodies-Sniffed [] all b h s = subst (λ z. Sniffed z b) (sym (append-nil all)) s
  push_bodies-Sniffed (chunk ∷ chunks) all b h s =
      subst (λ z. Sniffed z (push_bodies libs chunks (push_body libs chunk b)))
        (append_assoc all chunk (joined chunks))
        (push_bodies-Sniffed chunks (all ++ chunk) (push_body libs chunk b)
          (omega (
            arith,
            h,
            length-append all (chunk ++ joined chunks),
            length-append all chunk,
            length-append chunk (joined chunks),
            length-append (all ++ chunk) (joined chunks),
          ))
          (push-Sniffed all chunk b
            (omega (
              arith,
              h,
              length-append all (chunk ++ joined chunks),
              length-append all chunk,
              length-append chunk (joined chunks),
              length-append (all ++ chunk) (joined chunks),
            ))
            s))

  start-Sniffed : Sniffed [] (sniffing nothing_captured (some state))
  start-Sniffed = inl (nothing_indicates, refl)

module _ (libs : Libs) (env : Policy) (head : ReqHead) (norm_method : Text) (status : ℕ)
    (req_body : Bytes) (content_type : Text) where
  abbrev path : Option Text
  path = some head.upstream.path

  view_of_chunk :
      (protocol : Protocol) (all : Bytes)
      → looks_like_sse all ≡ true
      → State.finish libs
          (sse_finish libs (State.apply libs) (parsed libs (State.new protocol) all))
        ≡ field_view libs protocol response all path
  unfolding sse_push_all Framing.push_all sse_push
  view_of_chunk protocol all h =
      finish-field_view libs protocol all [] path (ap looks_like_sse (append-nil all) ∙ h)
      ∙ ap (λ z. field_view libs protocol response z path) (append-nil all)

  finish-Sniffed :
      (protocol : Protocol) (all : Bytes) (b : ResponseBody libs.Number)
      → looks_like_sse all ≡ body_prefix_indicates_sse all
      → Sniffed libs (State.new protocol) all b
      → finish_body libs head protocol b
        ≡ some (field_view libs protocol response all path, looks_like_sse all)
  unfolding finish_body
  finish-Sniffed protocol all b k (inl (differs, e)) =
      ap (finish_body libs head protocol) e
      ∙ ap (λ s. some (field_view libs protocol response all path, s)) (sym (k ∙ differs))
  finish-Sniffed protocol all b k (inr (ok, e)) =
      ap (finish_body libs head protocol) e
      ∙ ap (λ v. some (v, true)) (view_of_chunk protocol all (k ∙ ok))
      ∙ ap (λ s. some (field_view libs protocol response all path, s)) (sym (k ∙ ok))

  -- If the exchange's protocol is known, the collector starts by keeping the body to see what it is, the
  -- body is at most 8 MiB, and the tests of `build_field_claims` and of the collector agree on whether
  -- the whole body is an event stream, then collecting the body in any chunks gives the same field
  -- claims, or the same lack of claims, as building them from the whole body.
  pub collected-sniffing :
      (chunks : List Bytes) (protocol : Protocol)
      → protocol_of_exchange libs env head req_body ≡ some protocol
      → body_for libs head req_body content_type protocol
        ≡ sniffing nothing_captured (some (State.new protocol))
      → length (joined chunks) ≤ max_field_claims_capture
      → looks_like_sse (joined chunks) ≡ body_prefix_indicates_sse (joined chunks)
      → collected libs env head norm_method status req_body content_type chunks
        ≡ build_field_claims libs env head norm_method status req_body (joined chunks)
  collected-sniffing chunks protocol e start h k =
      collected_by_view libs env head norm_method status req_body content_type chunks protocol e (
        ap (λ b. finish_body libs head protocol (push_bodies libs chunks b)) start
        ∙ finish-Sniffed protocol (joined chunks) _ k (
            push_bodies-Sniffed libs (State.new protocol) chunks [] _ h
              (start-Sniffed libs (State.new protocol))))
