-- ===== src/Aggregate/OpenaiChat.antt =====
-- Streamed OpenAI chat completions: `OpenAiChatStreamState` and `aggregate_openai_chat_stream` of
-- enclave/src/main.rs.
use proof_of_observation.Base.{none, some, List, [], ◌∷◌, if◌then◌else◌, ℤ}
use proof_of_observation.Text.{Text, lit}
use proof_of_observation.Json.{Value, number, Object, as_array, as_object, Libs}
use proof_of_observation.Json.Map.{get, insert, insert_all}
use proof_of_observation.Json.Merge.{and_then, object_at, text_at, insert_non_null}
use proof_of_observation.Json.Merge.Deltas.{insert_missing, when_some, merge_openai_chat_delta}
use proof_of_observation.Json.Presence.{pick_key, pick_value}
use proof_of_observation.Json.Blocks.{Blocks, entry_at, len_i64, blocks_array, no_blocks, index_or}
use proof_of_observation.Aggregate.{fold_values, to_value, each_object}

pub record State (N : Type 0) : Type 0 where
  pub out : Object N
  pub choices : Blocks N

abbrev pub start : {N : Type 0} → State N
start = record { out = []; choices = [] }

abbrev pub response_keys : List Text
response_keys = lit "model" ∷ lit "choices" ∷ lit "usage" ∷ lit "error" ∷ []

module _ (libs : Libs) where
  new_choice : ℤ → Object libs.Number
  new_choice index =
      insert (lit "message") (to_value []) (insert (lit "index") (number (libs.number_of index)) [])

  merge_choice : Object libs.Number → Object libs.Number → Object libs.Number
  merge_choice choice_obj choice =
      let m₀ = object_at (lit "message") choice in
      let m₁ =
        when_some (and_then (get (lit "delta") choice_obj) as_object) m₀
          (merge_openai_chat_delta libs m₀) in
      let m₂ = when_some (and_then (get (lit "message") choice_obj) as_object) m₁ (insert_all m₁) in
      let c₁ = insert (lit "message") (to_value m₂) choice in
      let c₂ =
        when_some (get (lit "finish_reason") choice_obj) c₁
          (λ v. insert_non_null (lit "finish_reason") v c₁) in
      pick_key (lit "logprobs") (get (lit "logprobs") choice_obj) c₂

  apply_choice : Blocks libs.Number → Object libs.Number → Blocks libs.Number
  unfolding new_choice merge_choice
  apply_choice choices choice_obj =
      let index = index_or libs (len_i64 choices) (lit "index") choice_obj in
      entry_at index (new_choice index) (merge_choice choice_obj) choices

  apply_chunk : State libs.Number → Object libs.Number → State libs.Number
  unfolding apply_choice each_object
  apply_chunk s chunk =
      let o₁ = insert_missing (lit "model") (text_at (lit "model") chunk) s.out in
      let o₂ = pick_key (lit "usage") (get (lit "usage") chunk) o₁ in
      let o₃ = pick_key (lit "error") (get (lit "error") chunk) o₂ in
      let choices =
        when_some (and_then (get (lit "choices") chunk) as_array) s.choices
          (λ raws. each_object apply_choice raws s.choices) in
      record { out = o₃; choices = choices }

  unfoldable pub apply : State libs.Number → Value libs.Number → State libs.Number
  unfolding apply_chunk
  apply s item = when_some (as_object item) s (apply_chunk s)

  unfoldable pub finish : State libs.Number → Value libs.Number
  finish s =
      to_value (
        if no_blocks s.choices
        then s.out
        else insert (lit "choices") (blocks_array s.choices) s.out)

  -- What is no array is taken for a whole response.
  unfoldable pub aggregate : Value libs.Number → Value libs.Number
  unfolding apply finish fold_values pick_value
  aggregate value = elim (as_array value) [
    | none ↦ pick_value response_keys value
    | some vs ↦ finish (fold_values apply start vs)
  ]
