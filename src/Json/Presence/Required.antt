-- ===== src/Json/Presence/Required.antt =====
-- What picking keys keeps and what it drops, in `pick_value` of enclave/src/main.rs.
use proof_of_observation.Base.{
  Bool, false, ◌||◌, Option, none, some, List, [], ◌∷◌, ◌≡◌, refl, ap, ◌∙◌, arith, equal, equal_iff,
  if◌then◌else◌,
}
use proof_of_observation.Text.{Text}
use proof_of_observation.Json.{Value, object, Object, entries, entries-fields, Fields}
use proof_of_observation.Json.Map.{get, get-insert}
use proof_of_observation.Json.Presence.{pick_key, pick_keys, pick_value, field_of}

abbrev pub mem_key : Text → List Text → Bool
mem_key k [] = false
mem_key k (j ∷ keys) = equal j k || mem_key k keys

abbrev or_else : {A : Type 0} → Option A → Option A → Option A
or_else none o = o
or_else (some a) o = some a

get-pick_key :
    {N : Type 0} (j k : Text) (o : Option (Value N)) (out : Object N)
    → get k (pick_key j o out) ≡ (if equal j k then or_else o (get k out) else get k out)
unfolding pick_key
get-pick_key j k none out = ground arith
get-pick_key j k (some v) out = rw get-insert (ground arith)

get-pick_keys :
    {N : Type 0} (keys : List Text) (m out : Object N) (k : Text)
    → get k (pick_keys keys m out)
      ≡ (if mem_key k keys then or_else (get k m) (get k out) else get k out)
unfolding pick_keys
get-pick_keys [] m out k = refl
get-pick_keys (j ∷ keys) m out k =
    get-pick_keys keys m (pick_key j (get j m) out) k
    ∙ ground (arith, get-pick_key j k (get j m) out, equal_iff j k)

or_else-none : {A : Type 0} (o : Option A) → or_else o none ≡ o
or_else-none none = refl
or_else-none (some a) = refl

-- Of an object, picking keeps each listed field as it is and drops every other.
pub field_of-pick_value :
    {N : Type 0} (keys : List Text) (fs : Fields N) (k : Text)
    → field_of k (pick_value keys (object fs))
      ≡ (if mem_key k keys then field_of k (object fs) else none)
unfolding pick_value
field_of-pick_value keys fs k =
    ap (get k) (entries-fields (pick_keys keys (entries fs) []))
    ∙ get-pick_keys keys (entries fs) [] k
    ∙ unfold get in rw or_else-none refl
