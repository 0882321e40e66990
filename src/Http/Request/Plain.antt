-- ===== src/Http/Request/Plain.antt =====
-- The request head from a map of headers, inside `handle` of enclave/src/main.rs. `to_lowercase` of
-- the standard library follows Unicode tables, and is a parameter.
use proof_of_observation.Base.{
  ℕ, Bool, ◌||◌, false, Option, none, some, List, [], ◌∷◌, ◌++◌, equal, if◌then◌else◌,
}
use proof_of_observation.Text.{Text, lit}
use proof_of_observation.Http.Request.{Headers, header_line, request_line, usize_text, line_end}

-- The names that the enclave writes itself or leaves out.
abbrev pub reserved_names : List Text
reserved_names =
    lit "host"
    ∷ lit "authorization"
    ∷ lit "content-length"
    ∷ lit "connection"
    ∷ lit "transfer-encoding"
    ∷ lit "te"
    ∷ lit "trailer"
    ∷ lit "upgrade"
    ∷ lit "proxy-connection"
    ∷ lit "keep-alive"
    ∷ []

abbrev pub is_one_of : Text → List Text → Bool
is_one_of t [] = false
is_one_of t (name ∷ names) = equal t name || is_one_of t names

module _ (to_lowercase : Text → Text) where
  abbrev pub plain_line : Text × Text → Text
  plain_line (k, v) = if is_one_of (to_lowercase k) reserved_names then [] else header_line k v

  unfoldable pub plain_lines : Headers → Text
  unfolding header_line
  plain_lines [] = []
  plain_lines (header ∷ headers) = plain_line header ++ plain_lines headers

  abbrev pub bearer_line : Option Text → Text
  bearer_line none = []
  bearer_line (some token) = lit "authorization: Bearer " ++ (token ++ line_end)

  unfoldable pub build_request_head : Option Text → ℕ → Text → Text → Text → Headers → Text
  unfolding plain_lines request_line usize_text header_line
  build_request_head token body_len norm_method path host headers =
      request_line token body_len norm_method path
      ++ (header_line (lit "host") host
          ++ (plain_lines headers
              ++ (bearer_line token
                  ++ (header_line (lit "content-length") (usize_text body_len)
                      ++ (lit "connection: close" ++ (line_end ++ line_end))))))
