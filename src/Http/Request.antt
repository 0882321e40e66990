-- ===== src/Http/Request.antt =====
-- The request head from an ordered template, in enclave/src/main.rs: `parse_headers_ordered` and
-- `build_request_head_ordered`.
pub mod Fields
pub mod Framing
pub mod Lines
pub mod Plain
pub mod Writes
use proof_of_observation.Base.{
  ℕ, Bool, true, false, not, ◌&&◌, Option, none, some, List, [], ◌∷◌, ◌++◌, if◌then◌else◌,
}
use proof_of_observation.Text.{Text, lit, eq_ignore_ascii_case}
use proof_of_observation.Statement.Decimal.{digits}

abbrev pub Headers : Type 0
Headers = List (Text × Text)

-- `pair.len() != 2` refuses the whole list.
abbrev pair_of : List Text → Option (Text × Text)
pair_of (k ∷ (v ∷ [])) = some (k, v)
pair_of _ = none

abbrev cons_some : Option (Text × Text) → Option Headers → Option Headers
cons_some (some p) (some out) = some (p ∷ out)
cons_some _ _ = none

pairs_of : List (List Text) → Option Headers
pairs_of [] = some []
pairs_of (pair ∷ arr) = cons_some (pair_of pair) (pairs_of arr)

unfoldable pub parse_headers_ordered : Option (List (List Text)) → Option Headers
unfolding pairs_of
parse_headers_ordered none = none
parse_headers_ordered (some arr) = pairs_of arr

-- A usize in decimal has at most 20 digits.
unfoldable pub usize_text : ℕ → Text
unfolding digits
usize_text n = digits 20 n

abbrev pub line_end : Text
line_end = 13 ∷ 10 ∷ []

-- `format!("{}: {}\r\n", k, v)`
unfoldable pub header_line : Text → Text → Text
header_line k v = k ++ (lit ": " ++ (v ++ line_end))

-- The head so far, with `host_seen` and `clen_seen`.
pub record HeadState : Type 0 where
  pub s : Text
  pub host_seen : Bool
  pub clen_seen : Bool

module _ (token : Option Text) (body_len : ℕ) where
  abbrev pub authorize : Text → Option Text → HeadState → HeadState
  authorize k none st = st
  authorize k (some t) st = record st { s = st.s ++ header_line k (lit "Bearer " ++ t) }

  -- One entry of the template.
  unfoldable pub write_entry : Text → Text → HeadState → HeadState
  unfolding header_line usize_text
  write_entry k v st =
      if eq_ignore_ascii_case k (lit "authorization")
      then authorize k token st
      else if eq_ignore_ascii_case k (lit "content-length")
      then record st { s = st.s ++ header_line k (usize_text body_len); clen_seen = true }
      else if eq_ignore_ascii_case k (lit "transfer-encoding")
      then st
      else if eq_ignore_ascii_case k (lit "host")
      then record st { s = st.s ++ header_line k v; host_seen = true }
      else record st { s = st.s ++ header_line k v }

  unfoldable pub write_entries : Headers → HeadState → HeadState
  unfolding write_entry
  write_entries [] st = st
  write_entries ((k, v) ∷ ordered) st = write_entries ordered (write_entry k v st)

  abbrev pub unless : Bool → Text → Text
  unless true t = []
  unless false t = t

  -- The lines that the template left out, and the empty line.
  unfoldable pub close_head : Text → HeadState → Text
  unfolding header_line usize_text
  close_head host st =
      ((st.s ++ unless st.host_seen (header_line (lit "host") host))
        ++ unless st.clen_seen (header_line (lit "content-length") (usize_text body_len)))
      ++ line_end

  unfoldable pub request_line : Text → Text → Text
  request_line norm_method path =
      norm_method ++ (lit " " ++ (path ++ (lit " HTTP/1.1" ++ line_end)))

  unfoldable pub build_request_head_ordered : Text → Text → Text → Headers → Text
  unfolding write_entries close_head request_line
  build_request_head_ordered norm_method path host ordered = close_head host (
      write_entries ordered
        (record { s = request_line norm_method path; host_seen = false; clen_seen = false }))
