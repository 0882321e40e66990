-- ===== src/Aggregate.antt =====
-- The aggregators of enclave/src/main.rs, one for each protocol: what the events of a streamed
-- response add up to. Each stands there twice, as a loop over the parsed events of a whole body
-- (`aggregate_…`) and as a state that takes one event at a time (`…StreamState`), with the same code
-- for one event; here `apply` is that code, and the loop is `fold_values`.
pub mod OpenaiChat
pub mod OpenaiResponses
pub mod Anthropic
pub mod Gemini
pub mod Dashscope
pub mod Bedrock
pub mod Cohere
pub mod State
use proof_of_observation.Base.{
  ℕ, zero, suc, Bool, true, false, not, ◌&&◌, ◌||◌, Option, none, some, List, [], ◌∷◌, ◌++◌, equal,
  length, if◌then◌else◌, ℤ, pos,
}
use proof_of_observation.Text.{Text, lit, is_empty, ends_with}
use proof_of_observation.Json.{
  Value, number, string, array, object, Values, Object, values, items, fields, entries, as_array,
  as_object, as_str, is_null, is_array, Libs,
}
use proof_of_observation.Json.Map.{get, insert, insert_all, contains_key}
use proof_of_observation.Json.Merge.{
  and_then, unwrap_or, object_at, text_at, append_string_field, set_string_field,
  merge_value_object, merge_nested_object, merge_semantic_part, insert_non_null, insert_others,
}
use proof_of_observation.Json.Merge.Deltas.{
  insert_missing, when_some, merge_openai_chat_delta, merge_openai_response_content_part,
  merge_anthropic_content_delta, merge_gemini_candidate, merge_dashscope_message,
  merge_bedrock_content_delta,
}
use proof_of_observation.Json.Presence.{Kind, request, response, pick_key, pick_keys, pick_value}
use proof_of_observation.Json.Blocks.{
  Blocks, get_at, insert_at, remove_at, entry_at, len_i64, blocks_array, no_blocks, index_or,
}

-- `for item in items { … }`
unfoldable pub fold_values : {S N : Type 0} → (S → Value N → S) → S → Values N → S
fold_values apply s [] = s
fold_values apply s (item ∷ rest) = fold_values apply (apply s item) rest

-- `Value::Object(map)`
abbrev pub to_value : {N : Type 0} → Object N → Value N
to_value m = object (fields m)

-- `event.get("type").and_then(Value::as_str).unwrap_or("")`
abbrev pub type_of_event : {N : Type 0} → Object N → Text
type_of_event event = unwrap_or [] (text_at (lit "type") event)

-- `for raw in raws { let Some(o) = raw.as_object() else { continue }; … }`
unfoldable pub each_object : {S N : Type 0} → (S → Object N → S) → Values N → S → S
each_object f [] s = s
each_object f (raw ∷ raws) s = each_object f raws (when_some (as_object raw) s (f s))

-- The same, with `enumerate`, from `i`.
unfoldable pub each_object_from : {S N : Type 0} → (ℕ → S → Object N → S) → ℕ → Values N → S → S
each_object_from f i [] s = s
each_object_from f i (raw ∷ raws) s =
    each_object_from f (suc i) raws (when_some (as_object raw) s (f i s))
