-- ===== src/Aggregate/Anthropic.antt =====
-- Streamed Anthropic messages: `AnthropicMessagesStreamState`,
-- `aggregate_anthropic_messages_stream`, `seed_anthropic_content_blocks` and
-- `anthropic_messages_view` of enclave/src/main.rs.
use proof_of_observation.Base.{ℕ, Option, none, some, List, [], ◌∷◌, equal, if◌then◌else◌, pos}
use proof_of_observation.Text.{Text, lit}
use proof_of_observation.Json.{Value, Object, as_array, as_object, is_array, Libs}
use proof_of_observation.Json.Map.{get, insert}
use proof_of_observation.Json.Merge.{and_then, unwrap_or, merge_value_object, merge_nested_object}
use proof_of_observation.Json.Merge.Deltas.{when_some, merge_anthropic_content_delta}
use proof_of_observation.Json.Presence.{Kind, request, response, pick_value}
use proof_of_observation.Json.Blocks.{
  Blocks, get_at, insert_at, remove_at, entry_at, len_i64, blocks_array, no_blocks, index_or,
}
use proof_of_observation.Aggregate.{fold_values, to_value, type_of_event, each_object_from}

pub record State (N : Type 0) : Type 0 where
  pub out : Object N
  pub content_blocks : Blocks N

abbrev pub start : {N : Type 0} → State N
start = record { out = []; content_blocks = [] }

abbrev pub response_keys : List Text
response_keys =
    lit "type"
    ∷ lit "role"
    ∷ lit "model"
    ∷ lit "content"
    ∷ lit "stop_reason"
    ∷ lit "usage"
    ∷ lit "error"
    ∷ []

module _ {N : Type 0} where
  -- `blocks.entry(i as i64).or_insert_with(|| block.clone())`
  seed_block : ℕ → Blocks N → Object N → Blocks N
  seed_block i blocks block = entry_at (pos i) block (λ b. b) blocks

  unfoldable pub seed_content_blocks : Blocks N → Option (Value N) → Blocks N
  unfolding seed_block each_object_from
  seed_content_blocks blocks content =
      when_some (and_then content as_array) blocks
        (λ raws. each_object_from seed_block 0 raws blocks)

module _ (libs : Libs) where
  abbrev V : Type 0
  V = Value libs.Number

  abbrev O : Type 0
  O = Object libs.Number

  message_start : State libs.Number → V → State libs.Number
  unfolding pick_value seed_content_blocks
  message_start s message =
      let keys = lit "type" ∷ lit "role" ∷ lit "model" ∷ lit "stop_reason" ∷ lit "usage" ∷ [] in
      record {
        out = merge_value_object s.out (pick_value keys message);
        content_blocks =
            seed_content_blocks s.content_blocks
              (and_then (as_object message) (get (lit "content")));
      }

  block_start : State libs.Number → O → O → State libs.Number
  block_start s event block =
      let index = index_or libs (len_i64 s.content_blocks) (lit "index") event in
      record s { content_blocks = insert_at index block s.content_blocks }

  block_delta : State libs.Number → O → O → State libs.Number
  block_delta s event delta =
      let index = index_or libs (len_i64 s.content_blocks) (lit "index") event in
      let block = unwrap_or [] (get_at index s.content_blocks) in
      let others = remove_at index s.content_blocks in
      record s {
        content_blocks = insert_at index (merge_anthropic_content_delta libs block delta) others;
      }

  message_delta : State libs.Number → O → State libs.Number
  unfolding pick_value
  message_delta s event =
      let out =
        when_some (get (lit "delta") event) s.out
          (λ delta. merge_value_object s.out (pick_value (lit "stop_reason" ∷ []) delta)) in
      record s { out = merge_nested_object out (lit "usage") (get (lit "usage") event) }

  apply_event : State libs.Number → V → O → State libs.Number
  unfolding message_start block_start block_delta message_delta
  apply_event s item event =
      let t = type_of_event event in
      if equal t (lit "message_start")
      then when_some (get (lit "message") event) s (message_start s)
      else if equal t (lit "content_block_start")
      then when_some (and_then (get (lit "content_block") event) as_object) s (block_start s event)
      else if equal t (lit "content_block_delta")
      then when_some (and_then (get (lit "delta") event) as_object) s (block_delta s event)
      else if equal t (lit "message_delta")
      then message_delta s event
      else if equal t (lit "error")
      then record s { out = insert (lit "error") (unwrap_or item (get (lit "error") event)) s.out }
      else s

  unfoldable pub apply : State libs.Number → V → State libs.Number
  unfolding apply_event
  apply s item = when_some (as_object item) s (apply_event s item)

  unfoldable pub finish : State libs.Number → V
  unfolding pick_value
  finish s =
      let out =
        if no_blocks s.content_blocks
        then s.out
        else insert (lit "content") (blocks_array s.content_blocks) s.out in
      pick_value response_keys (to_value out)

  unfoldable pub aggregate : V → V
  unfolding apply finish fold_values pick_value
  aggregate value = elim (as_array value) [
    | none ↦ pick_value response_keys value
    | some vs ↦ finish (fold_values apply start vs)
  ]

  unfoldable pub view : Kind → V → V
  unfolding aggregate pick_value
  view request parsed = pick_value (lit "model" ∷ lit "messages" ∷ lit "system" ∷ []) parsed
  view response parsed =
      if is_array parsed then aggregate parsed else pick_value response_keys parsed
