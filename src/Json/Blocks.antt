-- ===== src/Json/Blocks.antt =====
-- The `BTreeMap<i64, Map<String, Value>>` in which every stream aggregator of enclave/src/main.rs
-- collects choices, items, candidates or content blocks by their index: a list in index order.
use proof_of_observation.Base.{
  Bool, true, false, Option, none, some, List, [], ◌∷◌, length, if◌then◌else◌, ℤ, pos, int_eq,
  int_lt,
}
use proof_of_observation.Text.{Text}
use proof_of_observation.Json.{Value, number, object, Object, array, items, fields, Values, Libs}
use proof_of_observation.Json.Map.{get}
use proof_of_observation.Json.Merge.{and_then, unwrap_or}

abbrev pub Blocks : Type 0 → Type 0
Blocks N = List (ℤ × Object N)

module _ {N : Type 0} where
  unfoldable pub get_at : ℤ → Blocks N → Option (Object N)
  get_at i [] = none
  get_at i ((j, m) ∷ blocks) = if int_eq j i then some m else get_at i blocks

  -- `insert`, which replaces the value of an index that is there.
  unfoldable pub insert_at : ℤ → Object N → Blocks N → Blocks N
  insert_at i m [] = (i, m) ∷ []
  insert_at i m ((j, w) ∷ blocks) =
      if int_eq j i
      then (j, m) ∷ blocks
      else if int_lt i j
      then (i, m) ∷ (j, w) ∷ blocks
      else (j, w) ∷ insert_at i m blocks

  unfoldable pub remove_at : ℤ → Blocks N → Blocks N
  remove_at i [] = []
  remove_at i ((j, w) ∷ blocks) = if int_eq j i then blocks else (j, w) ∷ remove_at i blocks

  -- `let block = blocks.entry(i).or_insert_with(|| start); f(block)`
  unfoldable pub entry_at : ℤ → Object N → (Object N → Object N) → Blocks N → Blocks N
  unfolding get_at insert_at
  entry_at i start f blocks = insert_at i (f (unwrap_or start (get_at i blocks))) blocks

  -- `blocks.len() as i64`
  abbrev pub len_i64 : Blocks N → ℤ
  len_i64 blocks = pos (length blocks)

  -- `blocks.into_values().map(Value::Object).collect()`
  abbrev pub block_values : Blocks N → Values N
  block_values [] = []
  block_values ((i, m) ∷ blocks) = object (fields m) ∷ block_values blocks

  abbrev pub blocks_array : Blocks N → Value N
  blocks_array blocks = array (items (block_values blocks))

  abbrev pub no_blocks : Blocks N → Bool
  no_blocks [] = true
  no_blocks (b ∷ blocks) = false

module _ (libs : Libs) where
  abbrev pub value_i64 : Value libs.Number → Option ℤ
  value_i64 (number n) = libs.as_i64 n
  value_i64 _ = none

  -- `object.get(k).and_then(Value::as_i64).unwrap_or(other)`
  abbrev pub index_or : ℤ → Text → Object libs.Number → ℤ
  index_or other k m = unwrap_or other (and_then (get k m) value_i64)
