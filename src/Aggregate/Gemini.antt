-- ===== src/Aggregate/Gemini.antt =====
-- Streamed Gemini content: `GeminiGenerateContentStreamState`,
-- `aggregate_gemini_generate_content_stream`, `gemini_model_from_path` and the two views of
-- enclave/src/main.rs.
use proof_of_observation.Base.{ℕ, Option, none, some, List, [], ◌∷◌, equal, if◌then◌else◌, pos}
use proof_of_observation.Text.{Text, lit}
use proof_of_observation.Json.{
  Value, number, object, Object, entries, as_array, as_object, is_array, Libs,
}
use proof_of_observation.Json.Map.{get, insert}
use proof_of_observation.Json.Merge.{and_then}
use proof_of_observation.Json.Merge.Deltas.{insert_missing, when_some, merge_gemini_candidate}
use proof_of_observation.Json.Presence.{Kind, request, response, pick_keys, pick_value}
use proof_of_observation.Json.Blocks.{Blocks, entry_at, blocks_array, no_blocks, index_or}
use proof_of_observation.Aggregate.{fold_values, to_value, each_object_from}
use proof_of_observation.Text.{split_on}
use proof_of_observation.Statement.{path_no_query}

pub record State (N : Type 0) : Type 0 where
  pub out : Object N
  pub candidates : Blocks N

abbrev pub start : {N : Type 0} → State N
start = record { out = []; candidates = [] }

abbrev pub response_keys : List Text
response_keys =
    lit "candidates"
    ∷ lit "promptFeedback"
    ∷ lit "usageMetadata"
    ∷ lit "error"
    ∷ lit "modelVersion"
    ∷ []

-- The part behind the first `models`, up to its first colon.
first_of : List Text → Option Text
first_of [] = none
first_of (part ∷ parts) = some part

non_empty : Text → Option Text
non_empty [] = none
non_empty (c ∷ s) = some (c ∷ s)

after_models : List Text → Option Text
unfolding first_of
after_models [] = none
after_models (part ∷ parts) =
    let later = after_models parts in if equal part (lit "models") then first_of parts else later

unfoldable pub model_from_path : Text → Option Text
unfolding after_models first_of non_empty split_on path_no_query
model_from_path path =
    and_then (after_models (split_on b'/' (path_no_query path)))
      (λ raw. and_then (first_of (split_on b':' raw)) non_empty)

module _ (libs : Libs) where
  abbrev V : Type 0
  V = Value libs.Number

  abbrev O : Type 0
  O = Object libs.Number

  apply_candidate : ℕ → Blocks libs.Number → O → Blocks libs.Number
  apply_candidate i candidates candidate_obj =
      let index = index_or libs (pos i) (lit "index") candidate_obj in
      entry_at index (insert (lit "index") (number (libs.number_of index)) [])
        (λ candidate. merge_gemini_candidate libs candidate candidate_obj) candidates

  apply_chunk : State libs.Number → O → State libs.Number
  unfolding apply_candidate each_object_from pick_keys
  apply_chunk s chunk =
      let keys =
        lit "promptFeedback" ∷ lit "usageMetadata" ∷ lit "error" ∷ lit "modelVersion" ∷ [] in
      record {
        out = pick_keys keys chunk s.out;
        candidates =
            when_some (and_then (get (lit "candidates") chunk) as_array) s.candidates
              (λ raws. each_object_from apply_candidate 0 raws s.candidates);
      }

  unfoldable pub apply : State libs.Number → V → State libs.Number
  unfolding apply_chunk
  apply s item = when_some (as_object item) s (apply_chunk s)

  unfoldable pub finish : State libs.Number → V
  unfolding pick_value
  finish s =
      let out =
        if no_blocks s.candidates
        then s.out
        else insert (lit "candidates") (blocks_array s.candidates) s.out in
      pick_value response_keys (to_value out)

  unfoldable pub aggregate : V → V
  unfolding apply finish fold_values pick_value
  aggregate value = elim (as_array value) [
    | none ↦ pick_value response_keys value
    | some vs ↦ finish (fold_values apply start vs)
  ]

  -- A model that the request does not name comes from the path.
  with_model : Option Text → V → V
  with_model path_model (object fs) =
      to_value (insert_missing (lit "model") path_model (entries fs))
  with_model path_model v = v

  unfoldable pub request_view : V → Option Text → V
  unfolding with_model pick_value model_from_path
  request_view parsed upstream_path =
      with_model (and_then upstream_path model_from_path)
        (pick_value (lit "model" ∷ lit "contents" ∷ lit "systemInstruction" ∷ []) parsed)

  unfoldable pub view : Kind → V → V
  unfolding aggregate request_view pick_value
  view request parsed = request_view parsed none
  view response parsed =
      if is_array parsed then aggregate parsed else pick_value response_keys parsed
