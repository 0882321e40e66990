-- ===== src/Json/Canonical.antt =====
-- `canonical_json` of enclave/src/main.rs: the text that is hashed for a view or for field claims.
-- It sorts the keys of each object; the text of a value does not depend on where it stands, so the
-- pairs are rendered and then sorted by key.
use proof_of_observation.Base.{Bool, true, false, List, [], ◌∷◌, ◌++◌, if◌then◌else◌}
use proof_of_observation.Text.{Text, lit, join}
use proof_of_observation.Json.{
  Value, null, bool, number, string, array, object, Items, nil, cons, Fields, end, field, Libs,
}
use proof_of_observation.Json.Map.{before}

-- `keys.sort()`, on keys with what is rendered for them: a stable insertion sort.
unfoldable pub place : Text × Text → List (Text × Text) → List (Text × Text)
place p [] = p ∷ []
place p (q ∷ m) = if before q.0 p.0 then q ∷ place p m else p ∷ q ∷ m

unfoldable pub sort : List (Text × Text) → List (Text × Text)
unfolding place
sort [] = []
sort (p ∷ m) = place p (sort m)

abbrev pub rendered : List (Text × Text) → List Text
rendered [] = []
rendered (p ∷ m) = p.1 ∷ rendered m

unfoldable pub bool_text : Bool → Text
bool_text true = lit "true"
bool_text false = lit "false"

-- `format!("[{}]", …)` and `format!("{{{}}}", …)`
abbrev pub brackets : List Text → Text
brackets parts = lit "[" ++ (join (lit ",") parts ++ lit "]")

abbrev pub braces : List Text → Text
braces parts = lit "{" ++ (join (lit ",") parts ++ lit "}")

module _ (libs : Libs) where
  unfoldable mutual
    unfolding sort join bool_text

    pub canonical_json : Value libs.Number → Text
    canonical_json null = lit "null"
    canonical_json (bool b) = bool_text b
    canonical_json (number n) = libs.number_to_string n
    canonical_json (string s) = libs.quote s
    canonical_json (array vs) = brackets (canonical_items vs)
    canonical_json (object fs) = braces (rendered (sort (canonical_fields fs)))

    pub canonical_items : Items libs.Number → List Text
    canonical_items nil = []
    canonical_items (cons v vs) = canonical_json v ∷ canonical_items vs

    pub canonical_fields : Fields libs.Number → List (Text × Text)
    canonical_fields end = []
    canonical_fields (field k v fs) =
        (k, libs.quote k ++ (lit ":" ++ canonical_json v)) ∷ canonical_fields fs
