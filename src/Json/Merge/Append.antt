-- ===== src/Json/Merge/Append.antt =====
-- Appending the pieces of a streamed text to a field of an object, as every stream aggregator of
-- enclave/src/main.rs does through `append_string_field`.
use proof_of_observation.Base.{
  true, Option, none, some, List, [], ◌∷◌, ◌++◌, ◌≡◌, ◌≢◌, refl, ap, ◌∙◌, append_assoc, append-nil,
  arith, equal, equal_iff,
}
use proof_of_observation.Text.{Text}
use proof_of_observation.Json.{string, Object}
use proof_of_observation.Json.Map.{get, get-insert}
use proof_of_observation.Json.Merge.{append_string_field, append_text, text_at, extended}

abbrev concat : List Text → Text
concat [] = []
concat (s ∷ pieces) = s ++ concat pieces

abbrev or_empty : Option Text → Text
or_empty none = []
or_empty (some s) = s

-- One call for each piece that arrives.
abbrev pub append_pieces : {N : Type 0} → Object N → Text → List Text → Object N
append_pieces target k [] = target
append_pieces target k (s ∷ pieces) =
    append_pieces (append_string_field target k (some (string s))) k pieces

extended-or_empty : (o : Option Text) (s : Text) → extended o s ≡ or_empty o ++ s
extended-or_empty none s = refl
extended-or_empty (some t) s = refl

equal_refl : (k : Text) → equal k k ≡ true
equal_refl k = (equal_iff k k).1 refl

module _ {N : Type 0} where
  -- One piece goes behind the text that is there.
  text_at-append :
      (target : Object N) (k s : Text)
      → text_at k (append_string_field target k (some (string s)))
        ≡ some (or_empty (text_at k target) ++ s)
  unfolding append_string_field append_text
  text_at-append target k s =
      rw (get-insert, equal_refl) (ap some (extended-or_empty (text_at k target) s))

  -- Another field is as it was.
  get-append_ne :
      (target : Object N) (k j : Text) (s : Text)
      → k ≢ j
      → get j (append_string_field target k (some (string s))) ≡ get j target
  unfolding append_string_field append_text
  get-append_ne target k j s ne = rw get-insert (ground (arith, equal_iff k j))

  get-append_pieces_ne :
      (pieces : List Text) (target : Object N) (k j : Text)
      → k ≢ j
      → get j (append_pieces target k pieces) ≡ get j target
  get-append_pieces_ne [] target k j ne = refl
  get-append_pieces_ne (s ∷ pieces) target k j ne =
      get-append_pieces_ne pieces (append_string_field target k (some (string s))) k j ne
      ∙ get-append_ne target k j s ne

  text_at-append_more :
      (pieces : List Text) (target : Object N) (k s : Text)
      → text_at k (append_pieces target k (s ∷ pieces))
        ≡ some (or_empty (text_at k target) ++ concat (s ∷ pieces))
  text_at-append_more [] target k s = rw append-nil (text_at-append target k s)
  text_at-append_more (t ∷ pieces) target k s =
      text_at-append_more pieces (append_string_field target k (some (string s))) k t
      ∙ rw text_at-append (ap some (append_assoc (or_empty (text_at k target)) s _))

  -- However a text is cut into pieces, at least one, appending them in turn leaves in the field the
  -- text that was there and then all of them, and leaves every other field alone.
  pub append_string_field_pieces :
      (target : Object N) (k s : Text) (pieces : List Text) (j : Text)
      → k ≢ j
      → (text_at k (append_pieces target k (s ∷ pieces))
          ≡ some (or_empty (text_at k target) ++ concat (s ∷ pieces)))
        × (get j (append_pieces target k (s ∷ pieces)) ≡ get j target)
  append_string_field_pieces target k s pieces j ne =
      (text_at-append_more pieces target k s, get-append_pieces_ne (s ∷ pieces) target k j ne)
