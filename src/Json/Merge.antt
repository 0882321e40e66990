-- ===== src/Json/Merge.antt =====
-- The helpers of enclave/src/main.rs that merge streamed pieces into one JSON object.
pub mod Append
pub mod Deltas
pub mod ToolCalls
use proof_of_observation.Base.{
  ℕ, zero, suc, ◌+◌, Bool, true, false, not, ◌&&◌, ◌||◌, Option, none, some, List, [], ◌∷◌, ◌++◌,
  equal, ltb, length, if◌then◌else◌,
}
use proof_of_observation.Text.{Text, lit}
use proof_of_observation.Json.{
  Value, number, string, array, object, Values, Object, values, items, entries, fields, as_array,
  as_object, as_str, is_null,
}
use proof_of_observation.Json.Map.{get, insert, insert_all, contains_key}

-- `opt.and_then(f)`
abbrev pub and_then : {A B : Type 0} → Option A → (A → Option B) → Option B
and_then none f = none
and_then (some a) f = f a

-- `opt.unwrap_or_default()`
abbrev pub unwrap_or : {A : Type 0} → A → Option A → A
unwrap_or d none = d
unwrap_or d (some a) = a

abbrev extended : Option Text → Text → Text
extended none s = s
extended (some existing) s = existing ++ s

abbrev pub is_semantic_text : Text → Bool
is_semantic_text k = equal k (lit "text") || equal k (lit "thinking") || equal k (lit "signature")

-- `append_fields.contains(&k)`
abbrev pub mem_text : Text → List Text → Bool
mem_text k [] = false
mem_text k (f ∷ fs) = equal k f || mem_text k fs

module _ {N : Type 0} where
  -- `target.get(field).and_then(Value::as_object).cloned().unwrap_or_default()`
  abbrev pub object_at : Text → Object N → Object N
  object_at k m = unwrap_or [] (and_then (get k m) as_object)

  abbrev pub array_at : Text → Object N → Values N
  array_at k m = unwrap_or [] (and_then (get k m) as_array)

  abbrev pub text_at : Text → Object N → Option Text
  text_at k m = and_then (get k m) as_str

  unfoldable pub append_text : Object N → Text → Option Text → Object N
  append_text target k none = target
  append_text target k (some s) = insert k (string (extended (text_at k target) s)) target

  unfoldable pub append_string_field : Object N → Text → Option (Value N) → Object N
  unfolding append_text
  append_string_field target k value = append_text target k (and_then value as_str)

  set_text : Object N → Text → Option Text → Object N
  set_text target k none = target
  set_text target k (some s) = insert k (string s) target

  unfoldable pub set_string_field : Object N → Text → Option (Value N) → Object N
  unfolding set_text
  set_string_field target k value = set_text target k (and_then value as_str)

  -- `if let Value::Object(map) = source { for (k, v) in map { target.insert(k, v); } }`
  unfoldable pub merge_value_object : Object N → Value N → Object N
  merge_value_object target (object fs) = insert_all target (entries fs)
  merge_value_object target _ = target

  -- Both sides objects: the fields of the new one go into the old one. Otherwise `other`.
  abbrev merged_or :
      Option (Object N) → Option (Object N) → Object N → (Object N → Object N) → Object N
  merged_or (some existing) (some incoming) other put = put (insert_all existing incoming)
  merged_or _ _ other put = other

  merge_nested_value : Object N → Text → Value N → Object N
  merge_nested_value target k v =
      merged_or (and_then (get k target) as_object) (as_object v) (insert k v target)
        (λ merged. insert k (object (fields merged)) target)

  unfoldable pub merge_nested_object : Object N → Text → Option (Value N) → Object N
  unfolding merge_nested_value
  merge_nested_object target k none = target
  merge_nested_object target k (some v) = merge_nested_value target k v

  -- `else if !v.is_null() { target.insert(k, v) }`
  abbrev pub insert_non_null : Text → Value N → Object N → Object N
  insert_non_null k v target = if is_null v then target else insert k v target

  -- An object is merged into the one that is there; anything else replaces it unless it is null.
  unfoldable pub merge_field : Object N → Text → Value N → Object N
  merge_field target k v =
      merged_or (and_then (get k target) as_object) (as_object v) (insert_non_null k v target)
        (λ merged. insert k (object (fields merged)) target)

  unfoldable pub merge_semantic_part : Object N → Object N → Object N
  unfolding append_string_field merge_field
  merge_semantic_part target [] = target
  merge_semantic_part target ((k, v) ∷ source) =
      merge_semantic_part
        (if is_semantic_text k
          then append_string_field target k (some v)
          else merge_field target k v)
        source

  merge_nested_fields : List Text → Object N → Object N → Object N
  merge_nested_fields append [] out = out
  merge_nested_fields append ((k, v) ∷ incoming) out =
      merge_nested_fields append incoming
        (if mem_text k append then append_string_field out k (some v) else merge_field out k v)

  unfoldable pub merge_nested_semantic_object : Option (Value N) → Object N → List Text → Value N
  unfolding merge_nested_fields append_string_field merge_field
  merge_nested_semantic_object existing incoming append =
      object
        (fields (merge_nested_fields append incoming (unwrap_or [] (and_then existing as_object))))

  -- `for (k, v) in source { if !skip.contains(k) && !v.is_null() { target.insert(k, v) } }`
  unfoldable pub insert_others : List Text → Object N → Object N → Object N
  insert_others skip [] target = target
  insert_others skip ((k, v) ∷ source) target =
      insert_others skip source (if mem_text k skip then target else insert_non_null k v target)
