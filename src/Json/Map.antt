-- ===== src/Json/Map.antt =====
-- The maps of enclave/src/main.rs: `serde_json::Map` and `BTreeMap<String, _>`, as association lists
-- in the order of their keys.
use proof_of_observation.Base.{
  Bool, true, false, Option, none, some, List, [], ◌∷◌, ◌≡◌, refl, arith, equal, equal_iff,
  if◌then◌else◌, ltb, ◌==◌,
}
use proof_of_observation.Text.{Text}

-- The order of keys: `str` compares its bytes, which is the order of the code points.
abbrev pub before : Text → Text → Bool
before [] [] = false
before [] (y ∷ ys) = true
before (x ∷ xs) [] = false
before (x ∷ xs) (y ∷ ys) = if ltb x y then true else if x == y then before xs ys else false

module _ {ℓ} {V : Type ℓ} where
  -- `get`
  unfoldable pub get : Text → List (Text × V) → Option V
  get k [] = none
  get k ((j, v) ∷ m) = if equal j k then some v else get k m

  -- `insert`, which replaces the value of a key that is there.
  unfoldable pub insert : Text → V → List (Text × V) → List (Text × V)
  insert k v [] = (k, v) ∷ []
  insert k v ((j, w) ∷ m) =
      if equal j k
      then (j, v) ∷ m
      else if before k j
      then (k, v) ∷ (j, w) ∷ m
      else (j, w) ∷ insert k v m

  -- `contains_key`
  abbrev pub is_some : Option V → Bool
  is_some none = false
  is_some (some v) = true

  unfoldable pub contains_key : Text → List (Text × V) → Bool
  unfolding get
  contains_key k m = is_some (get k m)

  -- `for (k, v) in source { target.insert(k, v) }`
  unfoldable pub insert_all : List (Text × V) → List (Text × V) → List (Text × V)
  unfolding insert
  insert_all target [] = target
  insert_all target ((k, v) ∷ source) = insert_all (insert k v target) source

  pub get-insert :
      (k j : Text) (v : V) (m : List (Text × V))
      → get j (insert k v m) ≡ (if equal k j then some v else get j m)
  unfolding get insert
  get-insert k j v [] = refl
  get-insert k j v ((i, w) ∷ m) =
      ground (arith, equal_iff k j, equal_iff i k, equal_iff i j, get-insert k j v m)
