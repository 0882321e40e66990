-- ===== src/Statement.antt =====
-- The signed statement of enclave/src/main.rs: `build_v2_statement`, `path_no_query`, `no_crlf`.
-- `to_lowercase` and `to_uppercase` of the standard library follow Unicode tables, and are
-- parameters; the field claims come as the hexadecimal text of their digest.
pub mod Decimal
pub mod Lines
use proof_of_observation.Base.{
  ℕ, zero, suc, ◌+◌, Bool, true, false, not, ◌||◌, Option, none, some, List, [], ◌∷◌, ◌++◌, Bytes,
  ◌==◌, if◌then◌else◌,
}
use proof_of_observation.Text.{Text, lit}
use proof_of_observation.Text.Utf8.{as_bytes}
use proof_of_observation.Statement.Decimal.{decimal}

unfoldable pub path_no_query : Text → Text
path_no_query [] = []
path_no_query (c ∷ p) = let rest = path_no_query p in if c == b'?' then [] else c ∷ rest

-- `s.bytes().any(|b| b == b'\r' || b == b'\n')`, on the bytes of the text.
unfoldable pub any_crlf : Bytes → Bool
any_crlf [] = false
any_crlf (b ∷ s) = (b == 13 || b == 10) || any_crlf s

unfoldable pub no_crlf : Text → Bool
unfolding any_crlf
no_crlf s = not (any_crlf (as_bytes s))

abbrev pub domain_v2 : Text
domain_v2 = lit "tee-exchange-v2"

-- The arguments of `build_v2_statement`; `claims_sha256_hex` is `field_claims_sha256_hex` of the
-- claims, where there are any.
pub record Exchange : Type 0 where
  pub nonce_b64 : Text
  pub upstream_host : Text
  pub upstream_path : Text
  pub http_method : Text
  pub http_status : ℕ
  pub resp_content_type : Text
  pub request_body_sha256_hex : Text
  pub response_body_sha256_hex : Text
  pub claims_sha256_hex : Option Text

-- `format!("key={}\n", value)`
abbrev pub line : Text → Text → Text
line key value = key ++ (value ++ (10 ∷ []))

unfoldable pub claims_line : Option Text → Text
claims_line none = []
claims_line (some hex) = line (lit "field-claims-sha256=") hex

module _ (to_lowercase to_uppercase : Text → Text) where
  unfoldable pub statement_text : Exchange → Text
  unfolding claims_line path_no_query
  statement_text x =
      line domain_v2 []
      ++ (line (lit "nonce=") x.nonce_b64
          ++ (line (lit "upstream-host=") (to_lowercase x.upstream_host)
              ++ (line (lit "upstream-path=") (path_no_query x.upstream_path)
                  ++ (line (lit "http-method=") (to_uppercase x.http_method)
                      ++ (line (lit "http-status=") (decimal x.http_status)
                          ++ (line (lit "resp-content-type=") x.resp_content_type
                              ++ (line (lit "request-body-sha256=") x.request_body_sha256_hex
                                  ++ (line (lit "response-body-sha256=") x.response_body_sha256_hex
                                      ++ claims_line x.claims_sha256_hex))))))))

  unfoldable pub build_v2_statement : Exchange → Bytes
  unfolding statement_text
  build_v2_statement x = as_bytes (statement_text x)
