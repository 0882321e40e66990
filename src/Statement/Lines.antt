-- ===== src/Statement/Lines.antt =====
-- The statement of enclave/src/main.rs is unambiguous: its lines fix the fields they were made of.
use proof_of_observation.Base.{
  ℕ, zero, suc, ◌+◌, ◌/◌, ◌%◌, ◌^◌, ◌<◌, ◌≡◌, ◌≢◌, refl, sym, ap, ◌∙◌, Bool, true, false, not, ◌&&◌,
  Option, none, some, [], ◌∷◌, ◌++◌, append-nil, subst, arith, ltb, ◌==◌, All, All-append,
  if◌then◌else◌, inl,
}
use proof_of_observation.Text.{Text, lit}
use proof_of_observation.Text.Utf8.{IsScalar, from_utf8}
use proof_of_observation.Text.Utf8.RoundTrip.{from_utf8-as_bytes}
use proof_of_observation.Statement.{
  Exchange, line, claims_line, statement_text, build_v2_statement, path_no_query, domain_v2,
}
use proof_of_observation.Statement.Decimal.{decimal, decimal-injective, digits}

-- A character of a value: a Unicode scalar value that does not end the line.
abbrev pub IsLineChar : ℕ → Type 0
IsLineChar c = IsScalar c × (c ≢ 10)

abbrev pub IsLine : Text → Type 0
IsLine = All IsLineChar

abbrev pub IsOptionalLine : Option Text → Type 0
IsOptionalLine none = Unit
IsOptionalLine (some t) = IsLine t

abbrev ascii : Text → Bool
ascii [] = true
ascii (c ∷ t) = (ltb c 0x80 && not (c == 10)) && ascii t

ascii-IsLine : (t : Text) → ascii t ≡ true → IsLine t
ascii-IsLine [] h = tt
ascii-IsLine (c ∷ t) h = ((inl (ground arith), ground arith), ascii-IsLine t (ground arith))

digit-IsLine : (d : ℕ) → d < 10 → IsLineChar (b'0' + d)
digit-IsLine d h = (inl (omega arith), omega arith)

last_digit-IsLine :
    (b : Bool) (n : ℕ) (front : Text)
    → ltb n 10 ≡ b
    → IsLine front
    → IsLine (if b then (b'0' + n) ∷ [] else front ++ ((b'0' + n % 10) ∷ []))
last_digit-IsLine true n front e h = (digit-IsLine n (ground arith), tt)
last_digit-IsLine false n front e h =
    (All-append IsLineChar front _).1 (h, (digit-IsLine (n % 10) (omega arith), tt))

digits-IsLine : (fuel n : ℕ) → IsLine (digits fuel n)
unfolding digits
digits-IsLine zero n = tt
digits-IsLine (suc fuel) n =
    last_digit-IsLine (ltb n 10) n (digits fuel (n / 10)) refl (digits-IsLine fuel (n / 10))

decimal-IsLine : (n : ℕ) → IsLine (decimal n)
unfolding decimal
decimal-IsLine n = digits-IsLine 5 n

-- A sequence of Unicode scalar values.
record IsText (t : Text) : Type 0 where
  proof : All IsScalar t

-- A line is a text, and fixes its value.
scalars :
    (key value rest : Text)
    → IsLine key
    → IsLine value
    → All IsScalar rest
    → All IsScalar (line key value ++ rest)
scalars [] [] rest hk hv hr = (inl (omega arith), hr)
scalars [] (c ∷ value) rest hk hv hr = (hv.0.0, scalars [] value rest tt hv.1 hr)
scalars (c ∷ key) value rest hk hv hr = (hk.0.0, scalars key value rest hk.1 hv hr)

line-IsText :
    (key value rest : Text)
    → ascii key ≡ true
    → IsLine value
    → IsText rest
    → IsText (line key value ++ rest)
line-IsText key value rest hk hv hr = record {
  proof = scalars key value rest (ascii-IsLine key hk) hv hr.proof;
}

line-injective :
    (key a b r s : Text)
    → IsLine a
    → IsLine b
    → line key a ++ r ≡ line key b ++ s
    → (a ≡ b) × (r ≡ s)
line-injective (c ∷ key) a b r s ha hb h = line-injective key a b r s ha hb cc
line-injective [] [] [] r s ha hb h = (refl, cc)
line-injective [] [] (d ∷ b) r s ha hb h = absurd (hb.0.1 (sym cc))
line-injective [] (c ∷ a) [] r s ha hb h = absurd (ha.0.1 cc)
line-injective [] (c ∷ a) (d ∷ b) r s ha hb h =
    let (e, e') = line-injective [] a b r s ha.1 hb.1 cc in (cc, e')

claims_line-injective :
    (a b : Option Text)
    → IsOptionalLine a
    → IsOptionalLine b
    → claims_line a ≡ claims_line b
    → a ≡ b
unfolding claims_line
claims_line-injective none none ha hb h = refl
claims_line-injective none (some b) ha hb h = cc
claims_line-injective (some a) none ha hb h = cc
claims_line-injective (some a) (some b) ha hb h =
    ap some (line-injective (lit "field-claims-sha256=") a b [] [] ha hb (ap (λ z. z ++ []) h)).0

claims_line-IsText : (a : Option Text) → IsOptionalLine a → IsText (claims_line a)
unfolding claims_line
claims_line-IsText none h = record { proof = tt }
claims_line-IsText (some a) h =
    subst IsText (append-nil (line (lit "field-claims-sha256=") a))
      (line-IsText (lit "field-claims-sha256=") a [] refl h (record { proof = tt }))

-- The values that go into the statement's lines are texts without a line feed, and the status is a
-- u16.
pub record IsExchange (to_lowercase to_uppercase : Text → Text) (x : Exchange) : Type 0 where
  pub nonce : IsLine x.nonce_b64
  pub host : IsLine (to_lowercase x.upstream_host)
  pub path : IsLine (path_no_query x.upstream_path)
  pub method : IsLine (to_uppercase x.http_method)
  pub status : x.http_status < 2 ^ 16
  pub content_type : IsLine x.resp_content_type
  pub request : IsLine x.request_body_sha256_hex
  pub response : IsLine x.response_body_sha256_hex
  pub claims : IsOptionalLine x.claims_sha256_hex

-- What a statement says of an exchange.
pub record Agree (to_lowercase to_uppercase : Text → Text) (x y : Exchange) : Type 0 where
  pub nonce : x.nonce_b64 ≡ y.nonce_b64
  pub host : to_lowercase x.upstream_host ≡ to_lowercase y.upstream_host
  pub path : path_no_query x.upstream_path ≡ path_no_query y.upstream_path
  pub method : to_uppercase x.http_method ≡ to_uppercase y.http_method
  pub status : x.http_status ≡ y.http_status
  pub content_type : x.resp_content_type ≡ y.resp_content_type
  pub request : x.request_body_sha256_hex ≡ y.request_body_sha256_hex
  pub response : x.response_body_sha256_hex ≡ y.response_body_sha256_hex
  pub claims : x.claims_sha256_hex ≡ y.claims_sha256_hex

module _ (to_lowercase to_uppercase : Text → Text) where
  statement-IsText :
      (x : Exchange)
      → IsExchange to_lowercase to_uppercase x
      → IsText (statement_text to_lowercase to_uppercase x)
  unfolding statement_text
  statement-IsText x h = line-IsText domain_v2 [] _ refl tt (
      line-IsText (lit "nonce=") _ _ refl h.nonce (
        line-IsText (lit "upstream-host=") _ _ refl h.host (
          line-IsText (lit "upstream-path=") _ _ refl h.path (
            line-IsText (lit "http-method=") _ _ refl h.method (
              line-IsText (lit "http-status=") _ _ refl (decimal-IsLine x.http_status) (
                line-IsText (lit "resp-content-type=") _ _ refl h.content_type (
                  line-IsText (lit "request-body-sha256=") _ _ refl h.request (
                    line-IsText (lit "response-body-sha256=") _ _ refl h.response
                      (claims_line-IsText x.claims_sha256_hex h.claims)))))))))

  text-Agree :
      (x y : Exchange)
      → IsExchange to_lowercase to_uppercase x
      → IsExchange to_lowercase to_uppercase y
      → statement_text to_lowercase to_uppercase x ≡ statement_text to_lowercase to_uppercase y
      → Agree to_lowercase to_uppercase x y
  unfolding statement_text
  text-Agree x y hx hy e =
      let (_, e0) = line-injective domain_v2 [] [] _ _ tt tt e in
      let (nonce, e1) = line-injective (lit "nonce=") _ _ _ _ hx.nonce hy.nonce e0 in
      let (host, e2) = line-injective (lit "upstream-host=") _ _ _ _ hx.host hy.host e1 in
      let (path, e3) = line-injective (lit "upstream-path=") _ _ _ _ hx.path hy.path e2 in
      let (method, e4) = line-injective (lit "http-method=") _ _ _ _ hx.method hy.method e3 in
      let (status, e5) =
        line-injective (lit "http-status=") _ _ _ _ (decimal-IsLine x.http_status)
          (decimal-IsLine y.http_status) e4 in
      let (content_type, e6) =
        line-injective (lit "resp-content-type=") _ _ _ _ hx.content_type hy.content_type e5 in
      let (request, e7) =
        line-injective (lit "request-body-sha256=") _ _ _ _ hx.request hy.request e6 in
      let (response, e8) =
        line-injective (lit "response-body-sha256=") _ _ _ _ hx.response hy.response e7 in
      record {
        nonce = nonce;
        host = host;
        path = path;
        method = method;
        status = decimal-injective x.http_status y.http_status hx.status hy.status status;
        content_type = content_type;
        request = request;
        response = response;
        claims =
            claims_line-injective x.claims_sha256_hex y.claims_sha256_hex hx.claims hy.claims e8;
      }

  -- Two exchanges whose values hold no line feed and whose statements are the same bytes agree on
  -- the nonce, the host in lower case, the path without its query, the method in upper case, the
  -- status, the content type, both body digests, and on whether there are field claims and their
  -- digest.
  pub build_v2_statement-Agree :
      (x y : Exchange)
      → IsExchange to_lowercase to_uppercase x
      → IsExchange to_lowercase to_uppercase y
      → build_v2_statement to_lowercase to_uppercase x
        ≡ build_v2_statement to_lowercase to_uppercase y
      → Agree to_lowercase to_uppercase x y
  unfolding build_v2_statement
  build_v2_statement-Agree x y hx hy e = text-Agree x y hx hy (
      some-injective (
        sym (from_utf8-as_bytes _ (statement-IsText x hx).proof)
        ∙ ap from_utf8 e
        ∙ from_utf8-as_bytes _ (statement-IsText y hy).proof))
    where
      some-injective : {a b : Text} → some a ≡ some b → a ≡ b
      some-injective h = cc
