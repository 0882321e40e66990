-- ===== src/Http/Headers.antt =====
-- `parse_headers` of enclave/src/main.rs: the status and the headers of the upstream's response.
-- `to_lowercase` of the standard library follows Unicode tables, and is a parameter.
pub mod Lines
use proof_of_observation.Base.{
  ℕ, ◌+◌, ◌-◌, ◌*◌, ◌^◌, Bool, true, false, ◌&&◌, Option, none, some, List, [], ◌∷◌, ◌++◌, Bytes,
  ltb, within, equal, ◌==◌, if◌then◌else◌, Result, ok, err,
}
use proof_of_observation.Text.{Text, lit, trim, contains, is_whitespace, is_empty, extend_first}
use proof_of_observation.Text.Utf8.{from_utf8_lossy}
use proof_of_observation.Json.Map.{get, insert}

-- `split("\r\n")`: at a carriage return with a line feed behind it, which stands first in what the
-- rest was split into.
abbrev pub starts_lf : Text → Bool
starts_lf [] = false
starts_lf (c ∷ s) = c == 10

abbrev pub drop_lf : List Text → List Text
drop_lf ((c ∷ part) ∷ parts) = part ∷ parts
drop_lf parts = parts

unfoldable pub split_crlf : Text → List Text
split_crlf [] = [] ∷ []
split_crlf (c ∷ s) =
    let parts = split_crlf s in
    if c == 13 && starts_lf s then [] ∷ drop_lf parts else extend_first c parts

-- `split_whitespace`
split_white : Text → List Text
unfolding is_whitespace
split_white [] = [] ∷ []
split_white (c ∷ s) =
    let parts = split_white s in if is_whitespace c then [] ∷ parts else extend_first c parts

non_empty : List Text → List Text
non_empty [] = []
non_empty ([] ∷ parts) = non_empty parts
non_empty ((c ∷ part) ∷ parts) = (c ∷ part) ∷ non_empty parts

unfoldable pub split_whitespace : Text → List Text
unfolding split_white non_empty
split_whitespace s = non_empty (split_white s)

-- The digits behind `acc`; a value that does not fit below `limit` is an error.
abbrev in_limit : ℕ → ℕ → ℕ → (ℕ → Option ℕ) → Option ℕ
in_limit limit c v later = if within b'0' b'9' c && ltb v limit then later v else none

unfoldable pub decimal_value : ℕ → ℕ → Text → Option ℕ
decimal_value limit acc [] = some acc
decimal_value limit acc (c ∷ s) =
    in_limit limit c (acc * 10 + (c - b'0')) (λ v. decimal_value limit v s)

-- `str::parse` of an unsigned integer: digits, with a plus sign before them or not.
unfoldable pub parse_unsigned : ℕ → Text → Option ℕ
unfolding decimal_value
parse_unsigned limit [] = none
parse_unsigned limit (c ∷ []) = if c == b'+' then none else decimal_value limit 0 (c ∷ [])
parse_unsigned limit (c ∷ (d ∷ s)) =
    if c == b'+' then decimal_value limit 0 (d ∷ s) else decimal_value limit 0 (c ∷ (d ∷ s))

-- The text before the first colon, and the text behind it.
abbrev cons_before : ℕ → Option (Text × Text) → Option (Text × Text)
cons_before c none = none
cons_before c (some (k, v)) = some (c ∷ k, v)

unfoldable pub split_colon : Text → Option (Text × Text)
split_colon [] = none
split_colon (c ∷ s) =
    let later = split_colon s in if c == b':' then some ([], s) else cons_before c later

pub record Headers : Type 0 where
  pub status : ℕ
  pub content_type : Option Text
  pub chunked : Bool
  pub content_length : Option ℕ
  pub headers : List (Text × Text)

pub data HeadersError : Type 0 where
  bad_status_line : HeadersError

abbrev second : List Text → Option Text
second (a ∷ (b ∷ parts)) = some b
second _ = none

abbrev parse_status : Option Text → Option ℕ
parse_status none = none
parse_status (some s) = parse_unsigned (2 ^ 16) s

-- `lines.next()` and the rest.
abbrev first_line : List Text → Text × List Text
first_line [] = ([], [])
first_line (line ∷ rest) = (line, rest)

-- A name that comes again adds its value to the first.
abbrev add_value : Text → Text → Option Text → List (Text × Text) → List (Text × Text)
add_value k v none headers = insert k v headers
add_value k v (some existing) headers = insert k (existing ++ (lit ", " ++ v)) headers

module _ (to_lowercase : Text → Text) where
  -- What a header says of the body.
  note_header : Text → Text → Headers → Headers
  unfolding contains parse_unsigned
  note_header k v h =
      if equal k (lit "content-type")
      then record h { content_type = some v }
      else if equal k (lit "transfer-encoding") && contains (lit "chunked") (to_lowercase v)
      then record h { chunked = true }
      else if equal k (lit "content-length")
      then record h { content_length = parse_unsigned (2 ^ 64) v }
      else h

  add_header : Option (Text × Text) → Headers → Headers
  unfolding note_header get insert trim
  add_header none h = h
  add_header (some (name, value)) h =
      let k = to_lowercase (trim name) in
      let v = trim value in
      let noted = note_header k v h in
      record noted { headers = add_value k v (get k noted.headers) noted.headers }

  add_headers : List Text → Headers → Headers
  unfolding add_header split_colon
  add_headers [] h = h
  add_headers (line ∷ rest) h = add_headers rest (add_header (split_colon line) h)

  abbrev with_status : List Text → Option ℕ → Result HeadersError Headers
  with_status rest none = err bad_status_line
  with_status rest (some status) = ok (
      add_headers rest (record {
        status = status;
        content_type = none;
        chunked = false;
        content_length = none;
        headers = [];
      }))

  unfoldable pub parse_headers : Bytes → Result HeadersError Headers
  unfolding add_headers split_crlf split_whitespace parse_unsigned from_utf8_lossy
  parse_headers head =
      let (status_line, rest) = first_line (split_crlf (from_utf8_lossy head)) in
      with_status rest (parse_status (second (split_whitespace status_line)))
