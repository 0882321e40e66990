-- ===== src/Examples/Values.antt =====
-- Examples for the JSON views and the detection of the protocol in enclave/src/main.rs.
use Prim.Native.Nat.{max}
use proof_of_observation.Base.{
  ℕ, ◌+◌, ◌≡◌, ◌≢◌, ap, none, some, [], ◌∷◌, arith, length, if◌then◌else◌,
}
use proof_of_observation.Text.{Text, lit}
use proof_of_observation.Json.{null, number, string, object, Object, Values, fields}
use proof_of_observation.Json.Map.{get}
use proof_of_observation.Json.Merge.{text_at}
use proof_of_observation.Json.Merge.Append.{append_pieces, append_string_field_pieces}
use proof_of_observation.Json.Merge.Deltas.{get_or, merge_tool_call}
use proof_of_observation.Json.Merge.ToolCalls.{
  target_index, merged_call, after_write, merge_tool_call-after_write,
}
use proof_of_observation.Json.Presence.{field_of, pick_value}
use proof_of_observation.Json.Presence.Required.{mem_key, field_of-pick_value}
use proof_of_observation.Protocol.{detect_protocol_family}
use proof_of_observation.Protocol.Total.{AllSupported, detect_protocol_family-AllSupported}
use proof_of_observation.Examples.{plain_libs}

abbrev first : Text → ℕ
first [] = 0
first (c ∷ s) = c

a_ne_b : lit "a" ≢ lit "b"
a_ne_b h = let e : first (lit "a") ≡ first (lit "b") = ap first h in absurd (omega (arith, e))

abbrev target : Object ℕ
target = (lit "a", string (lit "x")) ∷ (lit "b", number 1) ∷ []

append_string_field_pieces_example :
    (text_at (lit "a") (append_pieces target (lit "a") (lit "y" ∷ lit "z" ∷ [])) ≡ some (lit "xyz"))
    × (get (lit "b") (append_pieces target (lit "a") (lit "y" ∷ lit "z" ∷ []))
        ≡ get (lit "b") target)
unfolding get
append_string_field_pieces_example =
    append_string_field_pieces target (lit "a") (lit "y") (lit "z" ∷ []) (lit "b") a_ne_b

-- A delta for call 2, where calls 0 and 1 are there.
abbrev calls : Values ℕ
calls = string (lit "p") ∷ string (lit "q") ∷ []

abbrev delta : Object ℕ
delta = (lit "id", string (lit "c")) ∷ (lit "index", number 2) ∷ []

-- Call 2 is read after the delta.
merge_tool_call-after_write_example :
    (length (merge_tool_call plain_libs calls delta)
      ≡ max (length calls) (target_index plain_libs calls delta + 1))
    × (get_or (merge_tool_call plain_libs calls delta) 2 null
        ≡ after_write calls
            (target_index plain_libs calls delta)
            (merged_call plain_libs calls delta)
            2
            null)
merge_tool_call-after_write_example = merge_tool_call-after_write plain_libs calls delta 2 null

field_of-pick_value_example :
    field_of (lit "a") (pick_value (lit "a" ∷ []) (object (fields target))) ≡ (
      if mem_key (lit "a") (lit "a" ∷ [])
      then field_of (lit "a") (object (fields target))
      else none)
field_of-pick_value_example = field_of-pick_value (lit "a" ∷ []) (fields target) (lit "a")

detect_protocol_family-AllSupported_example : AllSupported (
    detect_protocol_family plain_libs (lit "api.openai.com") (lit "/v1/Responses?x=1") [] none none)
detect_protocol_family-AllSupported_example =
    detect_protocol_family-AllSupported plain_libs (lit "api.openai.com") (lit "/v1/Responses?x=1")
      [] none none
