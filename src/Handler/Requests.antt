-- ===== src/Handler/Requests.antt =====
-- The request head that `handle` of enclave/src/main.rs writes from a map of headers: its lines are
-- those that the enclave means to send, whatever the request of the control connection holds.
use proof_of_observation.Base.{
  ℕ, ◌≡◌, refl, sym, ap, ◌∙◌, Bool, true, false, ◌&&◌, Option, none, some, List, [], ◌∷◌, ◌++◌,
  append_assoc, All, All-append, if◌then◌else◌,
}
use proof_of_observation.Text.{Text, lit}
use proof_of_observation.Statement.{no_crlf}
use proof_of_observation.Intake.{headers_no_crlf, token_no_crlf}
use proof_of_observation.Http.Headers.{split_crlf}
use proof_of_observation.Http.Headers.Lines.{
  NoCr, no_crlf-NoCr, with_ends, with_ends-append, split_crlf-with_ends,
}
use proof_of_observation.Http.Request.{header_line, usize_text, line_end}
use proof_of_observation.Http.Request.Lines.{
  digits-NoCr, both-NoCr, header_text, header_line-header_text, header_text-NoCr, and_both,
  lit-NoCr, request_text, request_line-request_text, request_text-NoCr,
}
use proof_of_observation.Http.Request.Plain.{
  plain_lines, bearer_line, build_request_head, is_one_of, reserved_names,
}

-- The token's line, if there is one.
abbrev pub bearer_texts : Option Text → List Text
bearer_texts none = []
bearer_texts (some token) = (lit "authorization: Bearer " ++ token) ∷ []

bearer_texts-NoCr :
    (token : Option Text) → token_no_crlf token ≡ true → All NoCr (bearer_texts token)
bearer_texts-NoCr none h = tt
bearer_texts-NoCr (some token) h = (
  both-NoCr (lit "authorization: Bearer ") token (lit-NoCr (lit "authorization: Bearer ") refl)
      (no_crlf-NoCr token h),
  tt,
)

abbrev kept_text : Bool → Text → Text → List Text → List Text
kept_text true k v rest = rest
kept_text false k v rest = header_text k v ∷ rest

module _ (to_lowercase : Text → Text) where
  -- The headers that are passed on.
  abbrev pub kept_texts : List (Text × Text) → List Text
  kept_texts [] = []
  kept_texts ((k, v) ∷ headers) =
      kept_text (is_one_of (to_lowercase k) reserved_names) k v (kept_texts headers)

  plain_lines-with_ends :
      (headers : List (Text × Text))
      → plain_lines to_lowercase headers ≡ with_ends (kept_texts headers)
  unfolding plain_lines
  plain_lines-with_ends [] = refl
  plain_lines-with_ends ((k, v) ∷ headers) =
      go (is_one_of (to_lowercase k) reserved_names) (plain_lines-with_ends headers)
    where
      go :
          (b : Bool)
          → plain_lines to_lowercase headers ≡ with_ends (kept_texts headers)
          → (if b then [] else header_line k v) ++ plain_lines to_lowercase headers
            ≡ with_ends (kept_text b k v (kept_texts headers))
      go true ih = ih
      go false ih =
          ap (λ z. header_line k v ++ z) ih
          ∙ header_line-header_text k v (with_ends (kept_texts headers))

  kept_text-NoCr :
      (b : Bool) (k v : Text) (rest : List Text)
      → NoCr k
      → NoCr v
      → All NoCr rest
      → All NoCr (kept_text b k v rest)
  kept_text-NoCr true k v rest h w r = r
  kept_text-NoCr false k v rest h w r = (header_text-NoCr k v h w, r)

  kept-NoCr :
      (headers : List (Text × Text))
      → headers_no_crlf headers ≡ true
      → All NoCr (kept_texts headers)
  unfolding headers_no_crlf
  kept-NoCr [] h = tt
  kept-NoCr ((k, v) ∷ headers) h =
      let (here, later) = and_both (no_crlf k && no_crlf v) (headers_no_crlf headers) h in
      let (name, value) = and_both (no_crlf k) (no_crlf v) here in
      kept_text-NoCr (is_one_of (to_lowercase k) reserved_names) k v (kept_texts headers)
        (no_crlf-NoCr k name) (no_crlf-NoCr v value) (kept-NoCr headers later)

  module _ (token : Option Text) (body_len : ℕ) (norm_method path host : Text)
      (headers : List (Text × Text)) where
    -- The lines that the enclave means to send.
    abbrev pub head_lines : List Text
    head_lines =
        request_text norm_method path
        ∷ header_text (lit "host") host
        ∷ (kept_texts headers
            ++ (bearer_texts token
                ++ (header_text (lit "content-length") (usize_text body_len)
                    ∷ lit "connection: close"
                    ∷ []
                    ∷ [])))

    bearer_line-with_ends :
        (rest : Text)
        → bearer_line to_lowercase token ++ rest ≡ with_ends (bearer_texts token) ++ rest
    bearer_line-with_ends rest = go token
      where
        go :
            (t : Option Text)
            → bearer_line to_lowercase t ++ rest ≡ with_ends (bearer_texts t) ++ rest
        go none = refl
        go (some t) =
            ap (λ z. lit "authorization: Bearer " ++ z)
              (append_assoc t line_end rest ∙ sym (append_assoc t line_end rest))

    abbrev last_lines : List Text
    last_lines =
        header_text (lit "content-length") (usize_text body_len) ∷ lit "connection: close" ∷ [] ∷ []

    build_request_head-with_ends :
        build_request_head to_lowercase token body_len norm_method path host headers
        ≡ with_ends head_lines
    unfolding build_request_head
    build_request_head-with_ends =
        request_line-request_text token body_len norm_method path _
        ∙ ap (λ z. request_text norm_method path ++ (line_end ++ z))
            (header_line-header_text (lit "host") host _
              ∙ ap (λ z. header_text (lit "host") host ++ (line_end ++ z))
                  (ap
                      (λ z.
                        z
                        ++ (bearer_line to_lowercase token
                            ++ (header_line (lit "content-length") (usize_text body_len)
                                ++ (lit "connection: close" ++ (line_end ++ line_end)))))
                      (plain_lines-with_ends headers)
                    ∙ ap (λ z. with_ends (kept_texts headers) ++ z)
                        (bearer_line-with_ends _
                          ∙ ap (λ z. with_ends (bearer_texts token) ++ z)
                              (header_line-header_text (lit "content-length") (usize_text body_len)
                                (lit "connection: close" ++ (line_end ++ line_end)))
                          ∙ sym (with_ends-append (bearer_texts token) last_lines))
                    ∙ sym
                        (with_ends-append (kept_texts headers) (bearer_texts token ++ last_lines))))

    head_lines-NoCr :
        no_crlf norm_method ≡ true
        → no_crlf path ≡ true
        → no_crlf host ≡ true
        → headers_no_crlf headers ≡ true
        → token_no_crlf token ≡ true
        → All NoCr head_lines
    unfolding usize_text
    head_lines-NoCr m p h hs t = (
      request_text-NoCr norm_method path (no_crlf-NoCr norm_method m) (no_crlf-NoCr path p),
      (
        header_text-NoCr (lit "host") host (lit-NoCr (lit "host") refl) (no_crlf-NoCr host h),
        (All-append NoCr (kept_texts headers) _).1 (
          kept-NoCr headers hs,
          (All-append NoCr (bearer_texts token) last_lines).1 (
            bearer_texts-NoCr token t,
            (
              header_text-NoCr (lit "content-length") (usize_text body_len)
                  (lit-NoCr (lit "content-length") refl) (digits-NoCr 20 body_len),
              (lit-NoCr (lit "connection: close") refl, (tt, tt)),
            ),
          ),
        ),
      ),
    )

    -- If the method, the path, the host, the headers and the token hold no CR and no LF, then the head
    -- that is written from the map of headers, split at CR LF, is the request line, the host, the
    -- headers that are not reserved, the token if there is one, the length of the body, the closing
    -- of the connection, and the empty line that ends it.
    pub split_crlf-build_request_head :
        no_crlf norm_method ≡ true
        → no_crlf path ≡ true
        → no_crlf host ≡ true
        → headers_no_crlf headers ≡ true
        → token_no_crlf token ≡ true
        → split_crlf (build_request_head to_lowercase token body_len norm_method path host headers)
          ≡ head_lines ++ ([] ∷ [])
    split_crlf-build_request_head m p h hs t =
        ap split_crlf build_request_head-with_ends
        ∙ split_crlf-with_ends head_lines (head_lines-NoCr m p h hs t)
