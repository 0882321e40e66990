-- ===== src/Views/Response.antt =====
-- What a streamed response comes to: `StreamFieldState` fed one event at a time, and `field_view` on
-- the whole body, of enclave/src/main.rs.
use proof_of_observation.Base.{◌≡◌, refl, sym, ap, ◌∙◌, true, Option, List, [], ◌∷◌, Bytes}
use proof_of_observation.Text.{Text}
use proof_of_observation.Json.{Value, Values, array, items, values, Libs}
use proof_of_observation.Json.Presence.{
  Protocol, openai_chat, openai_responses, anthropic, gemini, dashscope, bedrock, cohere, response,
}
use proof_of_observation.Stream.Framing.{joined}
use proof_of_observation.Stream.Sse.{sse_start, sse_push_all, sse_finish}
use proof_of_observation.Aggregate.{fold_values}
use proof_of_observation.Aggregate.OpenaiChat
use proof_of_observation.Aggregate.OpenaiResponses
use proof_of_observation.Aggregate.Anthropic
use proof_of_observation.Aggregate.Gemini
use proof_of_observation.Aggregate.Dashscope
use proof_of_observation.Aggregate.Bedrock
use proof_of_observation.Aggregate.Cohere
use proof_of_observation.Aggregate.State
use proof_of_observation.Aggregate.State.{StreamState}
use proof_of_observation.Views.{view_of, field_view, looks_like_sse, parse_sse_data, sse_items}
use proof_of_observation.Views.Streamed.{sse_finish-sse_items}

values-items : {N : Type 0} (vs : Values N) → values (items vs) ≡ vs
values-items [] = refl
values-items (v ∷ vs) = ap (◌∷◌ v) (values-items vs)

-- A fold on a part of the state is a fold on the whole.
fold-wrap :
    {S T N : Type 0} (wrap : S → T) (f : S → Value N → S) (g : T → Value N → T) (s : S)
    (vs : Values N)
    → ((s : S) (v : Value N) → g (wrap s) v ≡ wrap (f s v))
    → fold_values g (wrap s) vs ≡ wrap (fold_values f s vs)
unfolding fold_values
fold-wrap wrap f g s [] h = refl
fold-wrap wrap f g s (v ∷ vs) h =
    ap (λ z. fold_values g z vs) (h s v) ∙ fold-wrap wrap f g (f s v) vs h

-- The loop over the parsed events is the fold over their array.
wrapped :
    {S T N : Type 0} (wrap : S → T) (f : S → Value N → S) (g : T → Value N → T) (s : S)
    (vs : Values N)
    → ((s : S) (v : Value N) → g (wrap s) v ≡ wrap (f s v))
    → fold_values g (wrap s) vs ≡ wrap (fold_values f s (values (items vs)))
wrapped wrap f g s vs h =
    fold-wrap wrap f g s vs h ∙ ap (λ z. wrap (fold_values f s z)) (sym (values-items vs))

module _ (libs : Libs) where
  -- For each of the seven protocols, applying the streaming state to parsed events in turn and
  -- finishing it gives the view of the response that the array of these events has.
  pub finish-view_of :
      (protocol : Protocol) (vs : Values libs.Number) (path : Option Text)
      → State.finish libs (fold_values (State.apply libs) (State.new protocol) vs)
        ≡ view_of libs protocol response (array (items vs)) path
  unfolding State.new State.apply State.finish view_of OpenaiChat.aggregate OpenaiResponses.view
      OpenaiResponses.aggregate Anthropic.view Anthropic.aggregate Gemini.view Gemini.aggregate
      Dashscope.view Dashscope.aggregate Bedrock.view Bedrock.aggregate Cohere.view Cohere.aggregate
  finish-view_of openai_chat vs path = ap (State.finish libs) (
      wrapped State.chat_state (OpenaiChat.apply libs) (State.apply libs) OpenaiChat.start vs
        (λ s v. refl))
  finish-view_of openai_responses vs path = ap (State.finish libs) (
      wrapped State.responses_state (OpenaiResponses.apply libs) (State.apply libs)
        OpenaiResponses.start vs (λ s v. refl))
  finish-view_of anthropic vs path = ap (State.finish libs) (
      wrapped State.messages_state (Anthropic.apply libs) (State.apply libs) Anthropic.start vs
        (λ s v. refl))
  finish-view_of gemini vs path = ap (State.finish libs) (
      wrapped State.gemini_state (Gemini.apply libs) (State.apply libs) Gemini.start vs
        (λ s v. refl))
  finish-view_of dashscope vs path = ap (State.finish libs) (
      wrapped State.dashscope_state (Dashscope.apply libs) (State.apply libs) Dashscope.start vs
        (λ s v. refl))
  finish-view_of bedrock vs path = ap (State.finish libs) (
      wrapped State.bedrock_state (Bedrock.apply libs) (State.apply libs) Bedrock.start vs
        (λ s v. refl))
  finish-view_of cohere vs path = ap (State.finish libs) (
      wrapped State.cohere_state (Cohere.apply libs) (State.apply libs) Cohere.start vs
        (λ s v. refl))

  -- For each protocol: if the whole body looks like an event stream, then pushing it in chunks, at
  -- least one, through the event parser into the protocol's streaming state and finishing both gives
  -- the view that `field_view` has of the whole body.
  pub finish-field_view :
      (protocol : Protocol) (c : Bytes) (cs : List Bytes) (path : Option Text)
      → looks_like_sse (joined (c ∷ cs)) ≡ true
      → State.finish libs (
          sse_finish libs (State.apply libs) (
            sse_push_all libs
              (State.apply libs)
              (c ∷ cs)
              (sse_start libs (State.apply libs) (State.new protocol))))
        ≡ field_view libs protocol response (joined (c ∷ cs)) path
  unfolding field_view parse_sse_data
  finish-field_view protocol c cs path h =
      ap (State.finish libs)
        (sse_finish-sse_items libs (State.apply libs) c cs (State.new protocol))
      ∙ finish-view_of protocol (sse_items libs (joined (c ∷ cs))) path
      ∙ rw h refl
