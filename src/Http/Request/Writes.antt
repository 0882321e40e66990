-- ===== src/Http/Request/Writes.antt =====
-- What the loop of `build_request_head_ordered` of enclave/src/main.rs has written, entry by entry: a
-- request line, and headers that its flags describe.
use proof_of_observation.Base.{
  ℕ, Bool, true, false, ◌||◌, Option, none, some, [], ◌∷◌, ◌++◌, append_assoc, append-nil, ◌≡◌,
  refl, sym, ap, ◌∙◌, arith, equal, All, All-append, inl, inr, Bool-cases,
}
use proof_of_observation.Intake.{token_no_crlf}
use proof_of_observation.Http.Headers.Lines.{NoCr, no_crlf-NoCr}
use proof_of_observation.Text.{Text, lit, eq_ignore_ascii_case, to_ascii_lowercase, lower}
use proof_of_observation.Http.Request.{
  Headers, usize_text, header_line, HeadState, write_entry, write_entries, authorize, unless,
}
use proof_of_observation.Http.Request.Lines.{both-NoCr, lit-NoCr}
use proof_of_observation.Http.Request.Fields.{
  Clean, render, named, has, Frames, other_name, render-append, has-append, usize_text-NoCr,
  literal-Clean,
}

module _ (token : Option Text) (body_len : ℕ) where
  -- What the loop has written: a request line, and headers that the flags describe.
  pub record Writes (first : Text) (st : HeadState) : Type 0 where
    pub headers : Headers
    pub text : st.s ≡ first ++ render headers
    pub host : st.host_seen ≡ has (lit "host") headers
    pub length : st.clen_seen ≡ has (lit "content-length") headers
    pub frames : All (Frames body_len) headers
    pub clean : All Clean headers

  -- One more header.
  more :
      (first k v : Text) (st : HeadState) (host clen : Bool)
      → Writes first st
      → Frames body_len (k, v)
      → Clean (k, v)
      → host ≡ (st.host_seen || named (lit "host") k)
      → clen ≡ (st.clen_seen || named (lit "content-length") k)
      → Writes first (record { s = st.s ++ header_line k v; host_seen = host; clen_seen = clen })
  unfolding render
  more first k v st host clen w f cl eh ec = record {
    headers = w.headers ++ (k, v) ∷ [];
    text =
        ap (λ z. z ++ header_line k v) w.text
        ∙ append_assoc first (render w.headers) (header_line k v)
        ∙ ap (λ z. first ++ z)
            (sym (
              render-append w.headers ((k, v) ∷ [])
              ∙ ap (λ z. render w.headers ++ z) (append-nil (header_line k v))));
    host = ground (arith, has-append (lit "host") w.headers ((k, v) ∷ []), w.host);
    length = ground (arith, has-append (lit "content-length") w.headers ((k, v) ∷ []), w.length);
    frames = (All-append (Frames body_len) w.headers ((k, v) ∷ [])).1 (w.frames, (f, tt));
    clean = (All-append Clean w.headers ((k, v) ∷ [])).1 (w.clean, (cl, tt));
  }

  -- A header whose name is neither of the two that the flags record.
  plain :
      (first k v : Text) (st : HeadState)
      → Writes first st
      → Frames body_len (k, v)
      → Clean (k, v)
      → named (lit "host") k ≡ false
      → named (lit "content-length") k ≡ false
      → Writes first (record st { s = st.s ++ header_line k v })
  plain first k v st w f cl eh ec =
      more first k v st st.host_seen st.clen_seen w f cl (ground (arith, eh)) (ground (arith, ec))

  distinct :
      (equal (to_ascii_lowercase (lit "authorization")) (to_ascii_lowercase (lit "host")) ≡ false)
      × (equal
            (to_ascii_lowercase (lit "authorization"))
            (to_ascii_lowercase (lit "content-length"))
          ≡ false)
      × (equal
            (to_ascii_lowercase (lit "authorization"))
            (to_ascii_lowercase (lit "transfer-encoding"))
          ≡ false)
      × (equal (to_ascii_lowercase (lit "content-length")) (to_ascii_lowercase (lit "host"))
          ≡ false)
      × (equal
            (to_ascii_lowercase (lit "content-length"))
            (to_ascii_lowercase (lit "transfer-encoding"))
          ≡ false)
  unfolding to_ascii_lowercase lower
  distinct = (refl, refl, refl, refl, refl)

  write_authorization-Writes :
      (first k v : Text) (st : HeadState)
      → Writes first st
      → Clean (k, v)
      → token_no_crlf token ≡ true
      → named (lit "authorization") k ≡ true
      → Writes first (write_entry token body_len k v st)
  unfolding write_entry
  write_authorization-Writes first k v st w cl nt e = rw e (go token nt)
    where
      go :
          (t : Option Text)
          → token_no_crlf t ≡ true
          → Writes first (authorize token body_len k t st)
      go none n = w
      go (some t) n =
          let clen = other_name k (lit "authorization") (lit "content-length") e distinct.1 in
          plain first k (lit "Bearer " ++ t) st w
            (other_name k (lit "authorization") (lit "transfer-encoding") e distinct.2, λ h. cc)
            (record {
              name = cl.name;
              name_cr = cl.name_cr;
              value_cr =
                  both-NoCr (lit "Bearer ") t (lit-NoCr (lit "Bearer ") refl) (no_crlf-NoCr t n);
            })
            (other_name k (lit "authorization") (lit "host") e distinct.0) clen

  write_entry-Writes :
      (first k v : Text) (st : HeadState)
      → Writes first st
      → Clean (k, v)
      → token_no_crlf token ≡ true
      → Writes first (write_entry token body_len k v st)
  unfolding write_entry
  write_entry-Writes first k v st w cl nt = elim (Bool-cases (named (lit "authorization") k)) [
    | inl a ↦ write_authorization-Writes first k v st w cl nt a
    | inr a ↦ elim (Bool-cases (named (lit "content-length") k)) [
      | inl c ↦
          rw (a, c)
            (more first k (usize_text body_len) st st.host_seen true w
              (
                other_name k (lit "content-length") (lit "transfer-encoding") c distinct.4,
                λ h. refl,
              )
              (record { name = cl.name; name_cr = cl.name_cr; value_cr = usize_text-NoCr body_len })
              (let d = other_name k (lit "content-length") (lit "host") c distinct.3 in
                ground (arith, d))
              (ground (arith, c)))
      | inr c ↦ elim (Bool-cases (named (lit "transfer-encoding") k)) [
        | inl t ↦ rw (a, c, t) w
        | inr t ↦ elim (Bool-cases (named (lit "host") k)) [
          | inl h ↦
              rw (a, c, t, h)
                (more first k v st true st.clen_seen w (t, λ z. cc) cl (ground (arith, h))
                  (ground (arith, c)))
          | inr h ↦ rw (a, c, t, h) (plain first k v st w (t, λ z. cc) cl h c)
        ]
      ]
    ]
  ]

  pub write_entries-Writes :
      (first : Text) (ordered : Headers) (st : HeadState)
      → Writes first st
      → All Clean ordered
      → token_no_crlf token ≡ true
      → Writes first (write_entries token body_len ordered st)
  unfolding write_entries
  write_entries-Writes first [] st w cs nt = w
  write_entries-Writes first ((k, v) ∷ ordered) st w cs nt =
      write_entries-Writes first ordered (write_entry token body_len k v st)
        (write_entry-Writes first k v st w cs.0 nt) cs.1 nt

  pub start-Writes :
      (first : Text) → Writes first (record { s = first; host_seen = false; clen_seen = false })
  unfolding render
  start-Writes first = record {
    headers = [];
    text = sym (append-nil first);
    host = refl;
    length = refl;
    frames = tt;
    clean = tt;
  }

  -- The header that is added where the template has none of its name.
  abbrev or_line : Bool → Text → Text → Text
  or_line seen k v = unless token body_len seen (header_line k v)

  pub close_host :
      (first host : Text) (st : HeadState)
      → Writes first st
      → NoCr host
      → Writes first
          (record st { s = st.s ++ or_line st.host_seen (lit "host") host; host_seen = true })
  unfolding eq_ignore_ascii_case to_ascii_lowercase lower
  close_host first host st w hc = elim (Bool-cases st.host_seen) [
    | inl h ↦ record {
      headers = w.headers;
      text = rw (h, append-nil) w.text;
      host = sym h ∙ w.host;
      length = w.length;
      frames = w.frames;
      clean = w.clean;
    }
    | inr h ↦ rw h (
        more first (lit "host") host st true st.clen_seen w (refl, λ z. cc)
          (literal-Clean (lit "host") host refl refl hc) (ground arith) (ground arith))
  ]

  pub close_length :
      (first : Text) (st : HeadState)
      → Writes first st
      → Writes first (record st {
        s = st.s ++ or_line st.clen_seen (lit "content-length") (usize_text body_len);
        clen_seen = true;
      })
  unfolding eq_ignore_ascii_case to_ascii_lowercase lower
  close_length first st w = elim (Bool-cases st.clen_seen) [
    | inl h ↦ record {
      headers = w.headers;
      text = rw (h, append-nil) w.text;
      host = w.host;
      length = sym h ∙ w.length;
      frames = w.frames;
      clean = w.clean;
    }
    | inr h ↦ rw h (
        more first (lit "content-length") (usize_text body_len) st st.host_seen true w
          (refl, λ z. refl)
          (literal-Clean (lit "content-length") (usize_text body_len) refl refl
            (usize_text-NoCr body_len))
          (ground arith) (ground arith))
  ]
