-- ===== src/Aggregate/Dashscope.antt =====
-- Streamed DashScope generations: `DashscopeGenerationStreamState`,
-- `aggregate_dashscope_generation_stream` and `dashscope_generation_view` of enclave/src/main.rs.
use proof_of_observation.Base.{
  ℕ, Bool, true, false, none, some, List, [], ◌∷◌, equal, if◌then◌else◌, ℤ, pos,
}
use proof_of_observation.Text.{Text, lit}
use proof_of_observation.Json.{Value, number, Object, as_array, as_object, is_array, Libs}
use proof_of_observation.Json.Map.{get, insert}
use proof_of_observation.Json.Merge.{and_then, object_at, insert_others}
use proof_of_observation.Json.Merge.Deltas.{when_some, merge_dashscope_message}
use proof_of_observation.Json.Presence.{Kind, request, response, pick_keys, pick_value}
use proof_of_observation.Json.Blocks.{Blocks, entry_at, blocks_array, no_blocks, index_or}
use proof_of_observation.Aggregate.{fold_values, to_value, each_object_from}

pub record State (N : Type 0) : Type 0 where
  pub out : Object N
  pub output : Object N
  pub choices : Blocks N

abbrev pub start : {N : Type 0} → State N
start = record { out = []; output = []; choices = [] }

abbrev pub response_keys : List Text
response_keys = lit "output" ∷ lit "usage" ∷ lit "request_id" ∷ lit "code" ∷ lit "message" ∷ []

-- `for (k, v) in raw_output { if k != "choices" { output.insert(k, v) } }`
unfoldable pub insert_but_choices : {N : Type 0} → Object N → Object N → Object N
insert_but_choices [] output = output
insert_but_choices ((k, v) ∷ raw) output =
    insert_but_choices raw (if equal k (lit "choices") then output else insert k v output)

abbrev is_empty_object : {N : Type 0} → Object N → Bool
is_empty_object [] = true
is_empty_object (p ∷ m) = false

module _ (libs : Libs) where
  abbrev V : Type 0
  V = Value libs.Number

  abbrev O : Type 0
  O = Object libs.Number

  new_choice : ℤ → O
  new_choice index =
      insert (lit "message") (to_value []) (insert (lit "index") (number (libs.number_of index)) [])

  merge_choice : O → O → O
  merge_choice choice_obj choice =
      let m₀ = object_at (lit "message") choice in
      let m₁ =
        when_some (and_then (get (lit "message") choice_obj) as_object) m₀
          (merge_dashscope_message libs m₀) in
      let m₂ =
        when_some (and_then (get (lit "delta") choice_obj) as_object) m₁
          (merge_dashscope_message libs m₁) in
      insert_others (lit "index" ∷ lit "message" ∷ lit "delta" ∷ []) choice_obj
        (insert (lit "message") (to_value m₂) choice)

  apply_choice : ℕ → Blocks libs.Number → O → Blocks libs.Number
  unfolding new_choice merge_choice
  apply_choice i choices choice_obj =
      let index = index_or libs (pos i) (lit "index") choice_obj in
      entry_at index (new_choice index) (merge_choice choice_obj) choices

  apply_output : State libs.Number → O → State libs.Number
  unfolding apply_choice each_object_from insert_but_choices
  apply_output s raw_output = record s {
    output = insert_but_choices raw_output s.output;
    choices =
        when_some (and_then (get (lit "choices") raw_output) as_array) s.choices
          (λ raws. each_object_from apply_choice 0 raws s.choices);
  }

  apply_chunk : State libs.Number → O → State libs.Number
  unfolding apply_output pick_keys
  apply_chunk s chunk =
      let keys = lit "usage" ∷ lit "request_id" ∷ lit "code" ∷ lit "message" ∷ [] in
      let s' = record s { out = pick_keys keys chunk s.out } in
      when_some (and_then (get (lit "output") chunk) as_object) s' (apply_output s')

  unfoldable pub apply : State libs.Number → V → State libs.Number
  unfolding apply_chunk
  apply s item = when_some (as_object item) s (apply_chunk s)

  unfoldable pub finish : State libs.Number → V
  unfolding pick_value
  finish s =
      let output =
        if no_blocks s.choices
        then s.output
        else insert (lit "choices") (blocks_array s.choices) s.output in
      let out =
        if is_empty_object output then s.out else insert (lit "output") (to_value output) s.out in
      pick_value response_keys (to_value out)

  unfoldable pub aggregate : V → V
  unfolding apply finish fold_values pick_value
  aggregate value = elim (as_array value) [
    | none ↦ pick_value response_keys value
    | some vs ↦ finish (fold_values apply start vs)
  ]

  unfoldable pub view : Kind → V → V
  unfolding aggregate pick_value
  view request parsed =
      pick_value (lit "model" ∷ lit "input" ∷ lit "system" ∷ lit "messages" ∷ []) parsed
  view response parsed =
      if is_array parsed then aggregate parsed else pick_value response_keys parsed
