-- ===== src/Handler/Relayed.antt =====
-- The relay of a body in `handle` of enclave/src/main.rs: the frames that were sent, the bytes that
-- were hashed and the collector agree after every piece.
use proof_of_observation.Base.{
  ℕ, zero, suc, ◌+◌, ◌%◌, ◌^◌, ◌≡◌, refl, sym, ap, subst, ◌∙◌, Option, none, some, List, [], ◌∷◌,
  ◌++◌, append_assoc, append-nil, Bytes, length, ok, bind-eq-ok, ok_injective, Bool-cases, inl, inr,
}
use proof_of_observation.Wire.{write_frame, resp_chunk}
use proof_of_observation.Json.{Value, Libs}
use proof_of_observation.Json.Merge.{and_then, unwrap_or}
use proof_of_observation.Http.Input.{Input}
use proof_of_observation.Http.Headers.{Headers}
use proof_of_observation.Http.Plain.Keeps.{stream_plain-Kept}
use proof_of_observation.Http.Chunked.Keeps.{stream_chunked-Kept}
use proof_of_observation.Stream.Framing.{joined}
use proof_of_observation.Claims.{Policy}
use proof_of_observation.Claims.Collector
use proof_of_observation.Claims.Collector.{Collector}
use proof_of_observation.Trailer.{Control, send, Tools, send_into}
use proof_of_observation.Handler.{relay_to, Relay, push_some, relay, stream_body, h2_on_chunks}

pub send-written :
    (t : ℕ) (payload : Bytes) (c c' : Control)
    → send t payload c ≡ some c'
    → c'.written ≡ c.written ++ write_frame [] t payload
unfolding send write_frame
send-written t payload c c' h = go c.room h
  where
    go :
        (room : ℕ)
        → send_into room t payload c.written ≡ some c'
        → c'.written ≡ c.written ++ write_frame [] t payload
    go zero e = cc
    go (suc room) e = ap (λ o. (unwrap_or c o).written) (sym e) ∙ append_assoc c.written _ payload

-- The frames of chunks, one after the other.
abbrev pub chunk_frames : List Bytes → Bytes
chunk_frames [] = []
chunk_frames (chunk ∷ chunks) = write_frame [] resp_chunk chunk ++ chunk_frames chunks

chunk_frames-append : (a b : List Bytes) → chunk_frames (a ++ b) ≡ chunk_frames a ++ chunk_frames b
chunk_frames-append [] b = refl
chunk_frames-append (c ∷ a) b =
    ap (λ z. write_frame [] resp_chunk c ++ z) (chunk_frames-append a b)
    ∙ sym (append_assoc (write_frame [] resp_chunk c) (chunk_frames a) (chunk_frames b))

joined-append : (a b : List Bytes) → joined (a ++ b) ≡ joined a ++ joined b
joined-append [] b = refl
joined-append (c ∷ a) b =
    ap (λ z. c ++ z) (joined-append a b) ∙ sym (append_assoc c (joined a) (joined b))

module _ (libs : Libs) (tools : Tools libs) (env : Policy) where
  abbrev pub R : Type 0
  R = Relay libs tools env

  abbrev pub push_each :
      List Bytes → Option (Collector libs.Number) → Option (Collector libs.Number)
  push_each [] c = c
  push_each (chunk ∷ chunks) c = push_each chunks (push_some libs tools env chunk c)

  push_each-append :
      (a b : List Bytes) (c : Option (Collector libs.Number))
      → push_each (a ++ b) c ≡ push_each b (push_each a c)
  push_each-append [] b c = refl
  push_each-append (chunk ∷ a) b c = push_each-append a b (push_some libs tools env chunk c)

  -- What a relay has done since `start`.
  pub record Relayed (start r : R) : Type 0 where
    pub chunks : List Bytes
    pub written : r.control.written ≡ start.control.written ++ chunk_frames chunks
    pub hashed : r.hashed ≡ start.hashed ++ joined chunks
    pub collected_by : r.field_collector ≡ push_each chunks start.field_collector

  pub start-Relayed : (r : R) → Relayed r r
  start-Relayed r = record {
    chunks = [];
    written = sym (append-nil r.control.written);
    hashed = sym (append-nil r.hashed);
    collected_by = refl;
  }

  one_more :
      (start r : R) (bytes : Bytes) (c : Control)
      → Relayed start r
      → c.written ≡ r.control.written ++ write_frame [] resp_chunk bytes
      → Relayed start (record {
        control = c;
        hashed = r.hashed ++ bytes;
        field_collector = push_some libs tools env bytes r.field_collector;
        streamed = (r.streamed + length bytes) % 2 ^ 64;
      })
  one_more start r bytes c p e = record {
    chunks = p.chunks ++ (bytes ∷ []);
    written =
        e
        ∙ ap (λ z. z ++ write_frame [] resp_chunk bytes) p.written
        ∙ append_assoc start.control.written (chunk_frames p.chunks)
            (write_frame [] resp_chunk bytes)
        ∙ ap (λ z. start.control.written ++ (chunk_frames p.chunks ++ z))
            (sym (append-nil (write_frame [] resp_chunk bytes)))
        ∙ ap (λ z. start.control.written ++ z) (sym (chunk_frames-append p.chunks (bytes ∷ [])));
    hashed =
        ap (λ z. z ++ bytes) p.hashed
        ∙ append_assoc start.hashed (joined p.chunks) bytes
        ∙ ap (λ z. start.hashed ++ (joined p.chunks ++ z)) (sym (append-nil bytes))
        ∙ ap (λ z. start.hashed ++ z) (sym (joined-append p.chunks (bytes ∷ [])));
    collected_by =
        ap (push_some libs tools env bytes) p.collected_by
        ∙ sym (push_each-append p.chunks (bytes ∷ []) start.field_collector);
  }

  relay-Relayed :
      (start r r' : R) (bytes : Bytes)
      → Relayed start r
      → relay libs tools env r bytes ≡ ok r'
      → Relayed start r'
  unfolding relay relay_to
  relay-Relayed start r r' bytes p h = go (send resp_chunk bytes r.control) refl h
    where
      go :
          (c : Option Control)
          → send resp_chunk bytes r.control ≡ c
          → relay_to libs tools env r bytes c ≡ ok r'
          → Relayed start r'
      go none e k = cc
      go (some c) e k =
          subst (Relayed start) (ok_injective _ r' k)
            (one_more start r bytes c p (send-written resp_chunk bytes r.control c e))

  pub stream_body-Relayed :
      (h : Headers) (leftover : Bytes) (input : Input) (start r : R)
      → stream_body libs tools env h leftover input start ≡ ok r
      → Relayed start r
  unfolding stream_body
  stream_body-Relayed h leftover input start r e = elim (Bool-cases h.chunked) [
    | inl yes_chunked ↦
        stream_chunked-Kept (relay libs tools env) (Relayed start)
          (λ s s' b p k. relay-Relayed start s s' b p k) leftover input start r
          (start-Relayed start) (rw yes_chunked at e)
    | inr plain ↦
        stream_plain-Kept (relay libs tools env) (Relayed start)
          (λ s s' b p k. relay-Relayed start s s' b p k) h.content_length leftover input start r
          (start-Relayed start) (rw plain at e)
  ]

  pub h2_on_chunks-Relayed :
      (chunks : List Bytes) (start r r' : R)
      → Relayed start r
      → h2_on_chunks libs tools env chunks r ≡ ok r'
      → Relayed start r'
  unfolding h2_on_chunks
  h2_on_chunks-Relayed [] start r r' p e = subst (Relayed start) (ok_injective r r' e) p
  h2_on_chunks-Relayed (chunk ∷ chunks) start r r' p e =
      let (s, es, later) =
        bind-eq-ok (relay libs tools env r chunk) (h2_on_chunks libs tools env chunks) e in
      h2_on_chunks-Relayed chunks start s r' (relay-Relayed start r s chunk p es) later

  push_each-none : (chunks : List Bytes) → push_each chunks none ≡ none
  push_each-none [] = refl
  push_each-none (chunk ∷ chunks) = push_each-none chunks

  push_each-some :
      (chunks : List Bytes) (c : Collector libs.Number)
      → push_each chunks (some c) ≡ some (Collector.push_all libs chunks c)
  unfolding Collector.push_all
  push_each-some [] c = refl
  push_each-some (chunk ∷ chunks) c = push_each-some chunks (Collector.push libs chunk c)

  pub claims-collected :
      (chunks : List Bytes) (o : Option (Collector libs.Number))
      (f : Collector libs.Number → Option (Value libs.Number))
      → and_then (push_each chunks o) f ≡ and_then o (λ c. f (Collector.push_all libs chunks c))
  claims-collected chunks none f = ap (λ o. and_then o f) (push_each-none chunks)
  claims-collected chunks (some c) f = ap (λ o. and_then o f) (push_each-some chunks c)
