-- ===== src/Http/Request/Framing.antt =====
-- How the request head that enclave/src/main.rs writes from an ordered template frames the body.
use proof_of_observation.Base.{
  ℕ, true, Option, [], ◌∷◌, ◌++◌, append_assoc, ◌≡◌, sym, ap, ◌∙◌, All, All-append,
}
use proof_of_observation.Statement.{no_crlf}
use proof_of_observation.Intake.{headers_no_crlf, token_no_crlf}
use proof_of_observation.Http.Headers.{split_crlf}
use proof_of_observation.Http.Headers.Lines.{
  NoCr, no_crlf-NoCr, with_ends-append, split_crlf-with_ends,
}
use proof_of_observation.Text.{Text, lit}
use proof_of_observation.Http.Request.{
  Headers, line_end, close_head, request_line, build_request_head_ordered,
}
use proof_of_observation.Http.Request.Lines.{
  request_text, request_line-request_text, request_text-NoCr,
}
use proof_of_observation.Http.Request.Fields.{
  NoColon, Clean, texts, ReadsBack, texts-NoCr, All-ReadsBack, entries-Clean, render, has, Frames,
  with_ends-texts,
}
use proof_of_observation.Http.Request.Writes.{
  write_entries-Writes, start-Writes, close_host, close_length,
}

module _ (token : Option Text) (body_len : ℕ) where
  -- What an upstream that splits the head at CR LF, and each header line at its first colon, reads:
  -- the request line, the headers and the empty line. The headers include a host and a content
  -- length; each content length is the length of the body, and there is no transfer encoding.
  pub record Framed (norm_method path head : Text) : Type 0 where
    pub headers : Headers
    pub lines : split_crlf head ≡ request_text norm_method path ∷ (texts headers ++ ([] ∷ [] ∷ []))
    pub reads_back : All ReadsBack headers
    pub has_host : has (lit "host") headers ≡ true
    pub has_length : has (lit "content-length") headers ≡ true
    pub frames : All (Frames body_len) headers

  -- A head that is rendered from clean headers, split at its line ends.
  split_crlf-render :
      (norm_method path : Text) (headers : Headers)
      → NoCr norm_method
      → NoCr path
      → All Clean headers
      → split_crlf (request_line token body_len norm_method path ++ (render headers ++ line_end))
        ≡ request_text norm_method path ∷ (texts headers ++ ([] ∷ [] ∷ []))
  split_crlf-render norm_method path headers m p h =
      let ls = texts headers ++ ([] ∷ []) in
      let first = request_text norm_method path in
      ap split_crlf (
        request_line-request_text token body_len norm_method path _
        ∙ ap (λ z. first ++ (line_end ++ z))
            (sym (
              with_ends-append (texts headers) ([] ∷ [])
              ∙ ap (λ z. z ++ line_end) (with_ends-texts headers))))
      ∙ split_crlf-with_ends (first ∷ ls) (
        request_text-NoCr norm_method path m p,
        (All-append NoCr (texts headers) ([] ∷ [])).1 (texts-NoCr headers h, (tt, tt)),
      )
      ∙ ap (λ z. first ∷ z) (append_assoc (texts headers) ([] ∷ []) ([] ∷ []))

  -- If the method, the path, the host, the token and the entries of the template hold no CR and no
  -- LF, and no name in the template holds a colon, then the head that `build_request_head_ordered`
  -- writes, split at CR LF, is the request line, header lines and the empty line; each header line
  -- is split at its first colon into the header's name and its value behind a space; among the
  -- headers are a host and a content length, every content length has the length of the body as its
  -- value, and none is a transfer encoding.
  pub build_request_head_ordered-Framed :
      (norm_method path host : Text) (ordered : Headers)
      → no_crlf norm_method ≡ true
      → no_crlf path ≡ true
      → no_crlf host ≡ true
      → token_no_crlf token ≡ true
      → headers_no_crlf ordered ≡ true
      → All (λ p. NoColon p.0) ordered
      → Framed norm_method path
          (build_request_head_ordered token body_len norm_method path host ordered)
  unfolding build_request_head_ordered close_head
  build_request_head_ordered-Framed norm_method path host ordered m p h t hs ns =
      let first = request_line token body_len norm_method path in
      let w₀ =
        write_entries-Writes token body_len first ordered _ (start-Writes token body_len first)
          (entries-Clean ordered hs ns) t in
      let w =
        close_length token body_len first _
          (close_host token body_len first host _ w₀ (no_crlf-NoCr host h)) in
      record {
        headers = w.headers;
        lines =
            ap (λ z. split_crlf (z ++ line_end)) w.text
            ∙ ap split_crlf (append_assoc first (render w.headers) line_end)
            ∙ split_crlf-render norm_method path w.headers (no_crlf-NoCr norm_method m)
                (no_crlf-NoCr path p) w.clean;
        reads_back = All-ReadsBack w.headers w.clean;
        has_host = sym w.host;
        has_length = sym w.length;
        frames = w.frames;
      }
