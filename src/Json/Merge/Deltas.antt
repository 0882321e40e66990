-- ===== src/Json/Merge/Deltas.antt =====
-- The merge functions of enclave/src/main.rs for one delta of each protocol.
use proof_of_observation.Base.{
  ℕ, zero, suc, ◌+◌, ◌-◌, Option, none, some, List, [], ◌∷◌, ◌++◌, equal, length, if◌then◌else◌,
}
use proof_of_observation.Text.{Text, lit, trim_end_matches}
use proof_of_observation.Json.{
  Value, number, string, array, object, Values, Object, items, fields, as_array, as_object, as_str,
  Libs,
}
use proof_of_observation.Json.Map.{get, insert, insert_all, contains_key}
use proof_of_observation.Json.Merge.{
  and_then, unwrap_or, object_at, array_at, append_string_field, set_string_field,
  merge_semantic_part, merge_nested_semantic_object, insert_others, insert_non_null,
}

-- `v[i]`, and `v[i] = x`, at an index that is in range where the code uses it.
abbrev pub get_or : {A : Type 0} → List A → ℕ → A → A
get_or [] i d = d
get_or (x ∷ xs) zero d = x
get_or (x ∷ xs) (suc i) d = get_or xs i d

abbrev pub set : {A : Type 0} → List A → ℕ → A → List A
set [] i v = []
set (x ∷ xs) zero v = v ∷ xs
set (x ∷ xs) (suc i) v = x ∷ set xs i v

abbrev pub empty_object : {N : Type 0} → Value N
empty_object = object (fields [])

abbrev pub replicate : {A : Type 0} → ℕ → A → List A
replicate zero a = []
replicate (suc n) a = a ∷ replicate n a

-- `while v.len() <= index { v.push({}) }`
unfoldable pub pad : {N : Type 0} → Values N → ℕ → Values N
pad v index = v ++ replicate (index + 1 - length v) empty_object

-- `if let Some(s) = … { if !map.contains_key(k) { map.insert(k, s) } }`
abbrev pub insert_missing : {N : Type 0} → Text → Option Text → Object N → Object N
insert_missing k none m = m
insert_missing k (some s) m = if contains_key k m then m else insert k (string s) m

-- `{ …; if let Some(o) = value { f(o) } }`
abbrev pub when_some : {A S : Type 0} → Option A → S → (A → S) → S
when_some none s f = s
when_some (some a) s f = f a

module _ (libs : Libs) where
  -- `raw.get("index").and_then(Value::as_u64)`
  abbrev pub number_index : Value libs.Number → Option ℕ
  number_index (number n) = libs.as_u64 n
  number_index _ = none

  -- The `function` field of a tool call: name and arguments are appended.
  merge_function : Object libs.Number → Object libs.Number → Object libs.Number
  merge_function item delta =
      let name =
        append_string_field (object_at (lit "function") item) (lit "name")
          (get (lit "name") delta) in
      let both = append_string_field name (lit "arguments") (get (lit "arguments") delta) in
      insert (lit "function") (object (fields both)) item

  tool_call_field : Text → Value libs.Number → Object libs.Number → Object libs.Number
  tool_call_field key value item =
      if equal key (lit "index")
      then item
      else if equal key (lit "function")
      then when_some (as_object value) item (merge_function item)
      else insert key value item

  pub tool_call_fields : Object libs.Number → Object libs.Number → Object libs.Number
  tool_call_fields [] item = item
  tool_call_fields ((key, value) ∷ raw) item = tool_call_fields raw (tool_call_field key value item)

  -- One entry of `delta`: the call at its index, or a new one behind the last.
  unfoldable pub merge_tool_call : Values libs.Number → Object libs.Number → Values libs.Number
  unfolding pad tool_call_fields tool_call_field merge_function append_string_field
  merge_tool_call current raw =
      let index = unwrap_or (length current) (and_then (get (lit "index") raw) number_index) in
      let padded = pad current index in
      let item = unwrap_or [] (as_object (get_or padded index empty_object)) in
      set padded index (object (fields (tool_call_fields raw item)))

  unfoldable pub merge_tool_calls : Values libs.Number → Values libs.Number → Values libs.Number
  unfolding merge_tool_call
  merge_tool_calls current [] = current
  merge_tool_calls current (raw ∷ delta) =
      merge_tool_calls (when_some (as_object raw) current (merge_tool_call current)) delta

  abbrev merge_calls_into : Object libs.Number → Object libs.Number → Object libs.Number
  merge_calls_into target source =
      when_some (and_then (get (lit "tool_calls") source) as_array) target λ calls.
        insert (lit "tool_calls")
          (array (items (merge_tool_calls (array_at (lit "tool_calls") target) calls))) target

  unfoldable pub merge_openai_chat_delta :
      Object libs.Number → Object libs.Number → Object libs.Number
  unfolding append_string_field merge_tool_calls
  merge_openai_chat_delta message delta =
      let m₁ = insert_missing (lit "role") (and_then (get (lit "role") delta) as_str) message in
      let m₂ = append_string_field m₁ (lit "content") (get (lit "content") delta) in
      let m₃ =
        append_string_field m₂ (lit "reasoning_content") (get (lit "reasoning_content") delta) in
      merge_calls_into m₃ delta

  unfoldable pub merge_dashscope_message :
      Object libs.Number → Object libs.Number → Object libs.Number
  unfolding append_string_field merge_tool_calls insert_others
  merge_dashscope_message target source =
      let t₁ = append_string_field target (lit "content") (get (lit "content") source) in
      let t₂ =
        append_string_field t₁ (lit "reasoning_content") (get (lit "reasoning_content") source) in
      insert_others (lit "content" ∷ lit "reasoning_content" ∷ lit "tool_calls" ∷ []) source
        (merge_calls_into t₂ source)

  unfoldable pub merge_anthropic_content_delta :
      Object libs.Number → Object libs.Number → Object libs.Number
  unfolding append_string_field trim_end_matches
  merge_anthropic_content_delta block delta =
      let kind = and_then (get (lit "type") delta) as_str in
      let b₀ =
        insert_missing (lit "type") (and_then kind (λ t. some (trim_end_matches (lit "_delta") t)))
          block in
      let b₁ = append_string_field b₀ (lit "text") (get (lit "text") delta) in
      let b₂ = append_string_field b₁ (lit "thinking") (get (lit "thinking") delta) in
      let b₃ = append_string_field b₂ (lit "signature") (get (lit "signature") delta) in
      append_string_field b₃ (lit "input_json") (get (lit "partial_json") delta)

  -- A nested object of a Bedrock delta, merged into the block's field of that name.
  abbrev merge_nested_at :
      Text → List Text → Object libs.Number → Object libs.Number → Object libs.Number
  merge_nested_at k append delta block =
      when_some (and_then (get k delta) as_object) block
        λ incoming. insert k (merge_nested_semantic_object (get k block) incoming append) block

  unfoldable pub merge_bedrock_content_delta :
      Object libs.Number → Object libs.Number → Object libs.Number
  unfolding append_string_field merge_nested_semantic_object insert_others
  merge_bedrock_content_delta block delta =
      let b₀ = append_string_field block (lit "text") (get (lit "text") delta) in
      let b₁ =
        if contains_key (lit "text") delta
        then insert_missing (lit "type") (some (lit "text")) b₀
        else b₀ in
      let b₂ =
        merge_nested_at (lit "reasoningContent") (lit "text" ∷ lit "signature" ∷ []) delta b₁ in
      let b₃ = merge_nested_at (lit "toolUse") (lit "input" ∷ []) delta b₂ in
      let b₄ = merge_nested_at (lit "citationsContent") (lit "text" ∷ []) delta b₃ in
      insert_others
        (lit "text" ∷ lit "reasoningContent" ∷ lit "toolUse" ∷ lit "citationsContent" ∷ []) delta b₄

  -- `for (i, raw) in incoming.iter().enumerate()`
  abbrev merge_part : Values libs.Number → ℕ → Value libs.Number → Values libs.Number
  merge_part out i raw =
      let padded = pad out i in
      when_some (as_object raw) (set padded i raw) λ raw_obj.
        let current = unwrap_or [] (as_object (get_or padded i empty_object)) in
        set padded i (object (fields (merge_semantic_part current raw_obj)))

  merge_parts : Values libs.Number → ℕ → Values libs.Number → Values libs.Number
  merge_parts out i [] = out
  merge_parts out i (raw ∷ incoming) = merge_parts (merge_part out i raw) (suc i) incoming

  unfoldable pub merge_indexed_parts :
      Option (Value libs.Number) → Values libs.Number → Value libs.Number
  unfolding merge_parts pad merge_semantic_part
  merge_indexed_parts existing incoming =
      array (items (merge_parts (unwrap_or [] (and_then existing as_array)) 0 incoming))

  candidate_content_field : Text → Value libs.Number → Object libs.Number → Object libs.Number
  candidate_content_field key value content =
      if equal key (lit "parts")
      then when_some (as_array value) content (λ parts.
        insert (lit "parts") (merge_indexed_parts (get (lit "parts") content) parts) content)
      else insert_non_null key value content

  candidate_content : Object libs.Number → Object libs.Number → Object libs.Number
  candidate_content [] content = content
  candidate_content ((key, value) ∷ source) content =
      candidate_content source (candidate_content_field key value content)

  candidate_field : Text → Value libs.Number → Object libs.Number → Object libs.Number
  candidate_field k v target =
      if equal k (lit "index")
      then target
      else if equal k (lit "content")
      then when_some (as_object v) target (λ source.
        insert (lit "content")
          (object (fields (candidate_content source (object_at (lit "content") target)))) target)
      else insert_non_null k v target

  unfoldable pub merge_gemini_candidate :
      Object libs.Number → Object libs.Number → Object libs.Number
  unfolding candidate_field candidate_content candidate_content_field merge_indexed_parts
  merge_gemini_candidate target [] = target
  merge_gemini_candidate target ((k, v) ∷ source) =
      merge_gemini_candidate (candidate_field k v target) source

  unfoldable pub merge_openai_response_content_part :
      Object libs.Number
      → Option (Value libs.Number)
      → Option (Value libs.Number)
      → Option Text
      → Option (Value libs.Number)
      → Option Text
      → Option (Value libs.Number)
      → Object libs.Number
  unfolding pad append_string_field set_string_field
  merge_openai_response_content_part item raw_index raw_part append_field append_value set_field
        set_value =
      let content = array_at (lit "content") item in
      let index = unwrap_or (length content) (and_then raw_index number_index) in
      let padded = pad content index in
      let part = unwrap_or [] (as_object (get_or padded index empty_object)) in
      let p₁ = when_some (and_then raw_part as_object) part (insert_all part) in
      let p₂ = when_some append_field p₁ (λ f. append_string_field p₁ f append_value) in
      let p₃ = when_some set_field p₂ (λ f. set_string_field p₂ f set_value) in
      insert (lit "content") (array (items (set padded index (object (fields p₃))))) item
