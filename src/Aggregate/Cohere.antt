-- ===== src/Aggregate/Cohere.antt =====
-- Streamed Cohere chats: `CohereChatStreamState`, `aggregate_cohere_chat_stream`,
-- `merge_cohere_message_delta`, `merge_cohere_content_block` and `cohere_chat_view` of
-- enclave/src/main.rs.
use proof_of_observation.Base.{
  ℕ, zero, suc, Bool, true, false, not, ◌&&◌, Option, none, some, List, [], ◌∷◌, ◌++◌, equal,
  length, if◌then◌else◌, ℤ, pos,
}
use proof_of_observation.Text.{Text, lit, is_empty}
use proof_of_observation.Json.{
  Value, string, array, object, Values, Object, values, items, entries, as_array, as_object, as_str,
  is_array, Libs,
}
use proof_of_observation.Json.Map.{get, insert, contains_key}
use proof_of_observation.Json.Merge.{
  and_then, unwrap_or, text_at, append_string_field, merge_value_object, merge_semantic_part,
  insert_others,
}
use proof_of_observation.Json.Merge.Deltas.{when_some}
use proof_of_observation.Json.Presence.{Kind, request, response, pick_key, pick_value}
use proof_of_observation.Json.Blocks.{Blocks, entry_at, blocks_array, no_blocks, index_or}
use proof_of_observation.Aggregate.{fold_values, to_value}

pub record State (N : Type 0) : Type 0 where
  pub out : Object N
  pub message : Object N
  pub content_blocks : Blocks N
  pub text : Text

abbrev pub start : {N : Type 0} → State N
start = record { out = []; message = []; content_blocks = []; text = [] }

abbrev pub response_keys : List Text
response_keys = lit "message" ∷ lit "text" ∷ lit "finish_reason" ∷ lit "usage" ∷ lit "error" ∷ []

abbrev is_empty_object : {N : Type 0} → Object N → Bool
is_empty_object [] = true
is_empty_object (p ∷ m) = false

-- `a.or_else(|| b)`
abbrev or_else : {A : Type 0} → Option A → Option A → Option A
or_else none b = b
or_else (some a) b = some a

-- `content_blocks.len() as i64 - 1`, or 0 where there is none.
abbrev last_index : ℕ → ℤ
last_index zero = pos 0
last_index (suc n) = pos n

module _ {N : Type 0} where
  unfoldable pub merge_content_block : Blocks N → ℤ → Value N → Blocks N
  unfolding merge_semantic_part
  merge_content_block blocks index raw_block =
      when_some (as_object raw_block) blocks
        (λ raw_obj. entry_at index [] (λ block. merge_semantic_part block raw_obj) blocks)

  -- `for (i, item) in items.iter().enumerate()`
  merge_content_items : ℕ → Values N → Blocks N → Blocks N
  unfolding merge_content_block
  merge_content_items i [] blocks = blocks
  merge_content_items i (item ∷ rest) blocks =
      merge_content_items (suc i) rest (merge_content_block blocks (pos i) item)

  -- Content that is a text goes into the first block.
  append_content_text : Blocks N → Text → Blocks N
  append_content_text blocks s =
      entry_at (pos 0) (insert (lit "type") (string (lit "text")) [])
        (λ block. append_string_field block (lit "text") (some (string s))) blocks

module _ (libs : Libs) where
  abbrev V : Type 0
  V = Value libs.Number

  abbrev O : Type 0
  O = Object libs.Number

  merge_content : Blocks libs.Number → V → Blocks libs.Number
  unfolding merge_content_items merge_content_block append_content_text
  merge_content blocks (array vs) = merge_content_items 0 (values vs) blocks
  merge_content blocks (object fs) =
      let index = index_or libs (last_index (length blocks)) (lit "index") (entries fs) in
      merge_content_block blocks index (object fs)
  merge_content blocks (string s) = append_content_text blocks s
  merge_content blocks _ = blocks

  -- `message` and `content_blocks`, changed together.
  unfoldable pub merge_message_delta : O × Blocks libs.Number → V → O × Blocks libs.Number
  unfolding merge_content insert_others
  merge_message_delta (message, blocks) raw_message =
      when_some (as_object raw_message) (message, blocks)
        λ message_obj. (
          insert_others (lit "content" ∷ []) message_obj message,
          when_some (get (lit "content") message_obj) blocks (merge_content blocks),
        )

  type_of : O → Text
  type_of event =
      let t =
        or_else (get (lit "type") event)
          (or_else (get (lit "event_type") event) (get (lit "eventType") event)) in
      unwrap_or [] (and_then t as_str)

  -- A finish reason goes to the response and to the message.
  set_finish_reason : Option V → State libs.Number → State libs.Number
  set_finish_reason reason s = record s {
    out = pick_key (lit "finish_reason") reason s.out;
    message = pick_key (lit "finish_reason") reason s.message;
  }

  apply_delta : Text → State libs.Number → O → State libs.Number
  unfolding merge_message_delta set_finish_reason
  apply_delta t s delta =
      let merged =
        when_some (get (lit "message") delta) (s.message, s.content_blocks)
          (merge_message_delta (s.message, s.content_blocks)) in
      let s₁ = record s { message = merged.0; content_blocks = merged.1 } in
      let s₂ = set_finish_reason (get (lit "finish_reason") delta) s₁ in
      if equal t (lit "message-end")
      then record s₂ { out = pick_key (lit "usage") (get (lit "usage") delta) s₂.out }
      else s₁

  apply_event : State libs.Number → O → State libs.Number
  unfolding type_of apply_delta set_finish_reason pick_value
  apply_event s event =
      let t = type_of event in
      let o₁ =
        when_some (get (lit "response") event) s.out
          (λ resp. merge_value_object s.out (pick_value response_keys resp)) in
      let s₁ = record s { out = o₁ } in
      let s₂ = when_some (and_then (get (lit "delta") event) as_object) s₁ (apply_delta t s₁) in
      let piece =
        if equal t (lit "text-generation") then unwrap_or [] (text_at (lit "text") event) else [] in
      let s₃ = set_finish_reason (get (lit "finish_reason") event) s₂ in
      record s₃ {
        text = s₂.text ++ piece;
        out = pick_key (lit "error") (get (lit "error") event) s₃.out;
      }

  unfoldable pub apply : State libs.Number → V → State libs.Number
  unfolding apply_event
  apply s item = when_some (as_object item) s (apply_event s)

  -- `json!([{ "type": "text", "text": text }])`
  text_content : Text → V
  text_content t = array (
      items (
        to_value (insert (lit "text") (string t) (insert (lit "type") (string (lit "text")) []))
        ∷ []))

  -- The message and the response, with what was collected.
  closed : State libs.Number → O × O
  unfolding text_content
  closed s =
      if not (no_blocks s.content_blocks)
      then (insert (lit "content") (blocks_array s.content_blocks) s.message, s.out)
      else if not (is_empty s.text)
      then (
        insert (lit "content") (text_content s.text) s.message,
        insert (lit "text") (string s.text) s.out,
      )
      else (s.message, s.out)

  unfoldable pub finish : State libs.Number → V
  unfolding closed pick_value
  finish s =
      let (message, out) = closed s in
      let out' =
        if not (is_empty_object message) && not (contains_key (lit "message") out)
        then insert (lit "message") (to_value message) out
        else out in
      pick_value response_keys (to_value out')

  unfoldable pub aggregate : V → V
  unfolding apply finish fold_values pick_value
  aggregate value = elim (as_array value) [
    | none ↦ pick_value response_keys value
    | some vs ↦ finish (fold_values apply start vs)
  ]

  unfoldable pub view : Kind → V → V
  unfolding aggregate pick_value
  view request parsed = pick_value (lit "model" ∷ lit "messages" ∷ lit "message" ∷ []) parsed
  view response parsed =
      if is_array parsed then aggregate parsed else pick_value response_keys parsed
