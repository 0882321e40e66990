-- ===== src/Json/Presence.antt =====
-- Views and their required fields, in enclave/src/main.rs: `pick_value`, `has_present_path`,
-- `required_presence`, `is_error_response_view` and `has_required_presence`.
pub mod Required
use proof_of_observation.Base.{
  Bool, true, false, not, ◌&&◌, ◌||◌, Option, none, some, List, [], ◌∷◌, if◌then◌else◌, ℕ,
}
use proof_of_observation.Text.{Text, lit, is_empty, split_on}
use proof_of_observation.Json.{
  Value, null, bool, number, string, array, object, Items, nil, cons, Object, entries, fields,
}
use proof_of_observation.Json.Map.{get, insert}

-- The seven protocols, and the two kinds of message.
pub data Protocol : Type 0 where
  openai_chat openai_responses anthropic gemini dashscope bedrock cohere : Protocol

pub data Kind : Type 0 where
  request response : Kind

-- `required_presence`: each group wants one of its paths.
unfoldable pub required_presence : Protocol → Kind → List (List Text)
required_presence openai_chat request = (lit "model" ∷ []) ∷ (lit "messages" ∷ []) ∷ []
required_presence openai_chat response = (lit "choices" ∷ []) ∷ []
required_presence openai_responses request = (lit "model" ∷ []) ∷ (lit "input" ∷ []) ∷ []
required_presence openai_responses response = (lit "output" ∷ lit "status" ∷ []) ∷ []
required_presence anthropic request = (lit "model" ∷ []) ∷ (lit "messages" ∷ []) ∷ []
required_presence anthropic response = (lit "content" ∷ []) ∷ []
required_presence gemini request = (lit "model" ∷ []) ∷ (lit "contents" ∷ []) ∷ []
required_presence gemini response = (lit "candidates" ∷ lit "promptFeedback" ∷ []) ∷ []
required_presence dashscope request = (lit "model" ∷ []) ∷ (lit "input" ∷ []) ∷ []
required_presence dashscope response = (lit "output" ∷ []) ∷ []
required_presence bedrock request = (lit "modelId" ∷ []) ∷ (lit "messages" ∷ []) ∷ []
required_presence bedrock response = (lit "output" ∷ []) ∷ []
required_presence cohere request = (lit "model" ∷ []) ∷ (lit "messages" ∷ lit "message" ∷ []) ∷ []
required_presence cohere response = (lit "message" ∷ lit "text" ∷ []) ∷ []

abbrev is_response : Kind → Bool
is_response request = false
is_response response = true

module _ {N : Type 0} where
  -- `value.get(part)`: only an object has fields.
  abbrev pub field_of : Text → Value N → Option (Value N)
  field_of k (object fs) = get k (entries fs)
  field_of k _ = none

  abbrev no_items : Items N → Bool
  no_items nil = true
  no_items (cons v vs) = false

  -- What counts as present at the end of a path.
  unfoldable pub is_present : Value N → Bool
  is_present null = false
  is_present (string s) = not (is_empty s)
  is_present (array vs) = not (no_items vs)
  is_present _ = true

  abbrev follow_to : Option (Value N) → (Value N → Bool) → Bool
  follow_to none f = false
  follow_to (some v) f = f v

  unfoldable pub follow : List Text → Value N → Bool
  unfolding is_present
  follow [] v = is_present v
  follow (part ∷ parts) v = follow_to (field_of part v) (follow parts)

  unfoldable pub has_present_path : Value N → Text → Bool
  unfolding follow split_on
  has_present_path v path = follow (split_on b'.' path) v

  unfoldable pub is_error_response_view : Protocol → Value N → Bool
  unfolding has_present_path
  is_error_response_view dashscope view =
      has_present_path view (lit "code") && has_present_path view (lit "message")
  is_error_response_view _ view = has_present_path view (lit "error")

  unfoldable pub any_present : Value N → List Text → Bool
  any_present view [] = false
  any_present view (path ∷ paths) = has_present_path view path || any_present view paths

  unfoldable pub all_present : Value N → List (List Text) → Bool
  all_present view [] = true
  all_present view (group ∷ groups) = any_present view group && all_present view groups

  unfoldable pub has_required_presence : Protocol → Kind → Value N → Bool
  unfolding is_error_response_view
  has_required_presence protocol kind view =
      (is_response kind && is_error_response_view protocol view)
      || all_present view (required_presence protocol kind)

  -- `for key in keys { if let Some(v) = map.get(key) { out.insert(key, v) } }`
  unfoldable pub pick_key : Text → Option (Value N) → Object N → Object N
  pick_key k none out = out
  pick_key k (some v) out = insert k v out

  unfoldable pub pick_keys : List Text → Object N → Object N → Object N
  pick_keys [] m out = out
  pick_keys (k ∷ keys) m out = pick_keys keys m (pick_key k (get k m) out)

unfoldable mutual
  unfolding pick_keys

  -- `pick_value`: an array item by item, an object cut down to the keys, anything else as it is.
  pub pick_value : {N : Type 0} → List Text → Value N → Value N
  pick_value keys (array vs) = array (pick_items keys vs)
  pick_value keys (object fs) = object (fields (pick_keys keys (entries fs) []))
  pick_value keys null = null
  pick_value keys (bool b) = bool b
  pick_value keys (number n) = number n
  pick_value keys (string s) = string s

  pub pick_items : {N : Type 0} → List Text → Items N → Items N
  pick_items keys nil = nil
  pick_items keys (cons v vs) = cons (pick_value keys v) (pick_items keys vs)
