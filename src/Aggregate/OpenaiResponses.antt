-- ===== src/Aggregate/OpenaiResponses.antt =====
-- Streamed OpenAI responses: `OpenAiResponsesStreamState`, `aggregate_openai_responses_stream` and
-- `openai_responses_view` of enclave/src/main.rs.
use proof_of_observation.Base.{
  Bool, true, false, not, ◌&&◌, ◌||◌, Option, none, some, List, [], ◌∷◌, equal, if◌then◌else◌,
}
use proof_of_observation.Text.{Text, lit}
use proof_of_observation.Json.{Value, string, Values, Object, as_array, as_object, is_array, Libs}
use proof_of_observation.Json.Map.{get, insert, insert_all}
use proof_of_observation.Json.Merge.{
  and_then, append_string_field, set_string_field, merge_value_object,
}
use proof_of_observation.Json.Merge.Deltas.{
  insert_missing, when_some, merge_openai_response_content_part,
}
use proof_of_observation.Json.Presence.{Kind, request, response, pick_key, pick_value}
use proof_of_observation.Json.Blocks.{Blocks, entry_at, len_i64, blocks_array, no_blocks, index_or}
use proof_of_observation.Aggregate.{fold_values, to_value, type_of_event}

pub record State (N : Type 0) : Type 0 where
  pub out : Object N
  pub output_items : Blocks N

abbrev pub start : {N : Type 0} → State N
start = record { out = []; output_items = [] }

abbrev pub response_keys : List Text
response_keys =
    lit "model" ∷ lit "status" ∷ lit "output" ∷ lit "output_text" ∷ lit "usage" ∷ lit "error" ∷ []

-- The arms of the match on the event's type; `text` and `text_done` carry what differs between the
-- three kinds of text parts: the part's type and the field of the final text.
pub data EventKind : Type 0 where
  output_item content_part completed failed ignored : EventKind
  text text_done : Text → Text → EventKind
  arguments arguments_done : EventKind

kind_of : Text → EventKind
kind_of t =
    if equal t (lit "response.output_item.added") || equal t (lit "response.output_item.done")
    then output_item
    else if equal t (lit "response.content_part.added")
        || equal t (lit "response.content_part.done")
    then content_part
    else if equal t (lit "response.output_text.delta")
    then text (lit "output_text") (lit "text")
    else if equal t (lit "response.output_text.done")
    then text_done (lit "output_text") (lit "text")
    else if equal t (lit "response.refusal.delta")
    then text (lit "refusal") (lit "refusal")
    else if equal t (lit "response.refusal.done")
    then text_done (lit "refusal") (lit "refusal")
    else if equal t (lit "response.reasoning_text.delta")
    then text (lit "reasoning_text") (lit "text")
    else if equal t (lit "response.reasoning_text.done")
    then text_done (lit "reasoning_text") (lit "text")
    else if equal t (lit "response.function_call_arguments.delta")
    then arguments
    else if equal t (lit "response.function_call_arguments.done")
    then arguments_done
    else if equal t (lit "response.completed")
    then completed
    else if equal t (lit "response.failed")
    then failed
    else ignored

module _ (libs : Libs) where
  abbrev V : Type 0
  V = Value libs.Number

  abbrev O : Type 0
  O = Object libs.Number

  -- The item that the event is about, a new one behind the last if it does not say.
  on_item : State libs.Number → O → (O → O) → State libs.Number
  on_item s event f =
      let index = index_or libs (len_i64 s.output_items) (lit "output_index") event in
      record s { output_items = entry_at index [] f s.output_items }

  -- `json!({"type": name})`
  part_of : Text → V
  part_of name = to_value (insert (lit "type") (string name) [])

  apply_kind : State libs.Number → O → EventKind → State libs.Number
  unfolding on_item part_of
  apply_kind s event output_item =
      on_item s event
        (λ item. when_some (and_then (get (lit "item") event) as_object) item (insert_all item))
  apply_kind s event content_part = on_item s event (λ item.
      merge_openai_response_content_part libs item (get (lit "content_index") event)
        (get (lit "part") event) none none none none)
  apply_kind s event (text part field) = on_item s event (λ item.
      merge_openai_response_content_part libs item (get (lit "content_index") event)
        (some (part_of part)) (some field) (get (lit "delta") event) none none)
  apply_kind s event (text_done part field) = on_item s event (λ item.
      merge_openai_response_content_part libs item (get (lit "content_index") event)
        (some (part_of part)) none none (some field) (get field event))
  apply_kind s event arguments =
      on_item s event (λ item. append_string_field item (lit "arguments") (get (lit "delta") event))
  apply_kind s event arguments_done =
      on_item s event
        (λ item. set_string_field item (lit "arguments") (get (lit "arguments") event))
  apply_kind s event completed = record s {
    out = insert_missing (lit "status") (some (lit "completed")) s.out;
  }
  apply_kind s event failed = record s {
    out = pick_key (lit "error") (get (lit "error") event) s.out;
  }
  apply_kind s event ignored = s

  apply_event : State libs.Number → O → State libs.Number
  unfolding apply_kind kind_of pick_value
  apply_event s event =
      let out =
        when_some (get (lit "response") event) s.out
          (λ resp. merge_value_object s.out (pick_value response_keys resp)) in
      apply_kind (record s { out = out }) event (kind_of (type_of_event event))

  unfoldable pub apply : State libs.Number → V → State libs.Number
  unfolding apply_event
  apply s item = when_some (as_object item) s (apply_event s)

  -- `is_none_or(|a| a.is_empty())`
  abbrev no_output : Option (Values libs.Number) → Bool
  no_output none = true
  no_output (some []) = true
  no_output (some (v ∷ vs)) = false

  unfoldable pub finish : State libs.Number → V
  unfolding pick_value
  finish s =
      let empty = no_output (and_then (get (lit "output") s.out) as_array) in
      let out =
        if empty && not (no_blocks s.output_items)
        then insert (lit "output") (blocks_array s.output_items) s.out
        else s.out in
      pick_value response_keys (to_value out)

  unfoldable pub aggregate : V → V
  unfolding apply finish fold_values pick_value
  aggregate value = elim (as_array value) [
    | none ↦ pick_value response_keys value
    | some vs ↦ finish (fold_values apply start vs)
  ]

  unfoldable pub view : Kind → V → V
  unfolding aggregate pick_value
  view request parsed = pick_value (lit "model" ∷ lit "input" ∷ []) parsed
  view response parsed =
      if is_array parsed then aggregate parsed else pick_value response_keys parsed
