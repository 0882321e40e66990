-- ===== src/Aggregate/Bedrock.antt =====
-- Streamed Bedrock conversations: `BedrockConverseStreamState`,
-- `aggregate_bedrock_converse_stream`, `bedrock_model_id_from_path` and the two views of
-- enclave/src/main.rs.
use proof_of_observation.Base.{
  Bool, true, false, not, ◌&&◌, ◌||◌, Option, none, some, List, [], ◌∷◌, equal, if◌then◌else◌,
}
use proof_of_observation.Text.{Text, lit, is_empty}
use proof_of_observation.Json.{Value, object, Object, entries, as_array, as_object, is_array, Libs}
use proof_of_observation.Json.Map.{get, insert, insert_all, contains_key}
use proof_of_observation.Json.Merge.{and_then, merge_value_object}
use proof_of_observation.Json.Merge.Deltas.{insert_missing, when_some, merge_bedrock_content_delta}
use proof_of_observation.Json.Presence.{Kind, request, response, pick_key, pick_value}
use proof_of_observation.Json.Blocks.{Blocks, entry_at, len_i64, blocks_array, no_blocks, index_or}
use proof_of_observation.Aggregate.{fold_values, to_value}
use proof_of_observation.Text.{split_on, to_ascii_lowercase}
use proof_of_observation.Statement.{path_no_query}

pub record State (N : Type 0) : Type 0 where
  pub out : Object N
  pub message : Object N
  pub content_blocks : Blocks N

abbrev pub start : {N : Type 0} → State N
start = record { out = []; message = []; content_blocks = [] }

abbrev pub response_keys : List Text
response_keys = lit "output" ∷ lit "stopReason" ∷ lit "usage" ∷ lit "error" ∷ []

abbrev is_empty_object : {N : Type 0} → Object N → Bool
is_empty_object [] = true
is_empty_object (p ∷ m) = false

-- The part behind the first `model`, if a part `converse` or `converse-stream` follows it.
model_before_operation : List Text → Option Text
model_before_operation (model_id ∷ (raw ∷ rest)) =
    let operation = to_ascii_lowercase raw in
    if equal operation (lit "converse") || equal operation (lit "converse-stream")
    then (if is_empty model_id then none else some model_id)
    else none
model_before_operation _ = none

after_model : List Text → Option Text
unfolding model_before_operation
after_model [] = none
after_model (part ∷ parts) =
    let later = after_model parts in
    if equal part (lit "model") then model_before_operation parts else later

unfoldable pub model_id_from_path : Text → Option Text
unfolding after_model split_on path_no_query
model_id_from_path path = after_model (split_on b'/' (path_no_query path))

module _ (libs : Libs) where
  abbrev V : Type 0
  V = Value libs.Number

  abbrev O : Type 0
  O = Object libs.Number

  -- The block that the event is about, a new one behind the last if it does not say.
  on_block : Blocks libs.Number → O → (O → O) → Blocks libs.Number
  on_block blocks event f =
      entry_at (index_or libs (len_i64 blocks) (lit "contentBlockIndex") event) [] f blocks

  start_block : Blocks libs.Number → O → Blocks libs.Number
  unfolding on_block
  start_block blocks block_start = on_block blocks block_start (λ block.
      when_some (and_then (get (lit "start") block_start) as_object) block (insert_all block))

  delta_block : Blocks libs.Number → O → Blocks libs.Number
  unfolding on_block
  delta_block blocks block_delta = on_block blocks block_delta (λ block.
      when_some (and_then (get (lit "delta") block_delta) as_object) block
        (merge_bedrock_content_delta libs block))

  -- `event.get(k).and_then(Value::as_object)`
  abbrev part : Text → O → Option O
  part k event = and_then (get k event) as_object

  apply_event : State libs.Number → V → O → State libs.Number
  unfolding start_block delta_block pick_value
  apply_event s item event =
      let message =
        when_some (part (lit "messageStart") event) s.message
          (λ m. pick_key (lit "role") (get (lit "role") m) s.message) in
      let b₁ =
        when_some (part (lit "contentBlockStart") event) s.content_blocks
          (start_block s.content_blocks) in
      let b₂ = when_some (part (lit "contentBlockDelta") event) b₁ (delta_block b₁) in
      let o₁ =
        when_some (part (lit "messageStop") event) s.out
          (λ m. pick_key (lit "stopReason") (get (lit "stopReason") m) s.out) in
      let o₂ =
        when_some (part (lit "metadata") event) o₁
          (λ m. pick_key (lit "usage") (get (lit "usage") m) o₁) in
      let o₃ =
        if contains_key (lit "output") event
        then merge_value_object o₂ (pick_value response_keys item)
        else o₂ in
      record {
        out = pick_key (lit "error") (get (lit "error") event) o₃;
        message = message;
        content_blocks = b₂;
      }

  unfoldable pub apply : State libs.Number → V → State libs.Number
  unfolding apply_event
  apply s item = when_some (as_object item) s (apply_event s item)

  unfoldable pub finish : State libs.Number → V
  unfolding pick_value
  finish s =
      let message =
        if no_blocks s.content_blocks
        then s.message
        else insert (lit "content") (blocks_array s.content_blocks) s.message in
      let out =
        if not (is_empty_object message) && not (contains_key (lit "output") s.out)
        then insert (lit "output") (to_value (insert (lit "message") (to_value message) [])) s.out
        else s.out in
      pick_value response_keys (to_value out)

  unfoldable pub aggregate : V → V
  unfolding apply finish fold_values pick_value
  aggregate value = elim (as_array value) [
    | none ↦ pick_value response_keys value
    | some vs ↦ finish (fold_values apply start vs)
  ]

  -- A model that the request does not name comes from the path.
  with_model_id : Option Text → V → V
  with_model_id path_model (object fs) =
      to_value (insert_missing (lit "modelId") path_model (entries fs))
  with_model_id path_model v = v

  unfoldable pub request_view : V → Option Text → V
  unfolding with_model_id pick_value model_id_from_path
  request_view parsed upstream_path =
      with_model_id (and_then upstream_path model_id_from_path)
        (pick_value (lit "modelId" ∷ lit "messages" ∷ lit "system" ∷ []) parsed)

  unfoldable pub view : Kind → V → V
  unfolding aggregate request_view pick_value
  view request parsed = request_view parsed none
  view response parsed =
      if is_array parsed then aggregate parsed else pick_value response_keys parsed
