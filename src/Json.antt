-- ===== src/Json.antt =====
-- JSON values as enclave/src/main.rs handles them. `serde_json` and `sha2` are not part of the
-- repository: `Libs` holds what the code calls of them, as parameters. `serde_json::Value` is an
-- enum that the code matches on; its `Map` is a BTreeMap, here an association list in key order.
pub mod Map
pub mod Canonical
pub mod Merge
pub mod Presence
pub mod Blocks
use proof_of_observation.Base.{
  ℕ, Bool, true, false, Option, none, some, List, [], ◌∷◌, ◌≡◌, refl, ap, Bytes, ℤ,
}
use proof_of_observation.Text.{Text}

mutual
  pub data Value (N : Type 0) : Type 0 where
    null : Value N
    bool : Bool → Value N
    number : N → Value N
    string : Text → Value N
    array : Items N → Value N
    object : Fields N → Value N

  pub data Items (N : Type 0) : Type 0 where
    nil : Items N
    cons : Value N → Items N → Items N

  pub data Fields (N : Type 0) : Type 0 where
    end : Fields N
    field : Text → Value N → Fields N → Fields N

-- What the code calls of `serde_json` and `sha2`.
pub record Libs : Type 1 where
  -- `serde_json::Number`
  pub Number : Type 0
  pub as_u64 : Number → Option ℕ
  pub number_to_string : Number → Text
  pub as_i64 : Number → Option ℤ
  pub number_of : ℤ → Number
  -- `serde_json::to_string` of a text, and `serde_json::from_str`
  pub quote : Text → Text
  pub from_str : Text → Option (Value Number)
  -- `Sha256::digest`
  pub sha256 : Bytes → Bytes

-- `Vec<Value>` and `Map<String, Value>`
abbrev pub Values : Type 0 → Type 0
Values N = List (Value N)

abbrev pub Object : Type 0 → Type 0
Object N = List (Text × Value N)

module _ {N : Type 0} where
  -- The lists inside a value, as lists, and back.
  abbrev pub values : Items N → Values N
  values nil = []
  values (cons v vs) = v ∷ values vs

  abbrev pub items : Values N → Items N
  items [] = nil
  items (v ∷ vs) = cons v (items vs)

  abbrev pub entries : Fields N → Object N
  entries end = []
  entries (field k v fs) = (k, v) ∷ entries fs

  abbrev pub fields : Object N → Fields N
  fields [] = end
  fields ((k, v) ∷ m) = field k v (fields m)

  pub entries-fields : (m : Object N) → entries (fields m) ≡ m
  entries-fields [] = refl
  entries-fields ((k, v) ∷ m) = ap (◌∷◌ (k, v)) (entries-fields m)

  -- `Value::as_array`, `as_object`, `as_str`, `is_null`
  abbrev pub as_array : Value N → Option (Values N)
  as_array (array vs) = some (values vs)
  as_array _ = none

  abbrev pub as_object : Value N → Option (Object N)
  as_object (object fs) = some (entries fs)
  as_object _ = none

  abbrev pub as_str : Value N → Option Text
  as_str (string s) = some s
  as_str _ = none

  abbrev pub as_bool : Value N → Option Bool
  as_bool (bool b) = some b
  as_bool _ = none

  abbrev pub is_null : Value N → Bool
  is_null null = true
  is_null _ = false

  abbrev pub is_array : Value N → Bool
  is_array (array vs) = true
  is_array _ = false
