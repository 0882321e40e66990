-- ===== src/Http/Request/Fields.antt =====
-- The headers of a request head that enclave/src/main.rs writes, as lines: a name without a colon and
-- fields without a line break are read back from the line.
use proof_of_observation.Base.{
  ℕ, Bool, true, false, ◌||◌, some, [], ◌∷◌, ◌++◌, append_assoc, ◌≡◌, ◌≢◌, refl, sym, ap, ◌∙◌,
  arith, equal, equal_iff, List, All, ◌&&◌, not, ◌==◌,
}
use proof_of_observation.Statement.{no_crlf}
use proof_of_observation.Intake.{headers_no_crlf}
use proof_of_observation.Http.Headers.{split_colon}
use proof_of_observation.Http.Headers.Lines.{NoCr, no_crlf-NoCr, with_ends}
use proof_of_observation.Text.{Text, lit, eq_ignore_ascii_case, to_ascii_lowercase}
use proof_of_observation.Http.Request.{Headers, usize_text, header_line}
use proof_of_observation.Http.Request.Lines.{
  digits-NoCr, header_text, header_line-header_text, header_text-NoCr, and_both, without_cr,
  lit-NoCr,
}

-- No colon among the characters.
abbrev pub NoColon : Text → Type 0
NoColon s = All (λ c. c ≢ 58) s

not_colon : (c : ℕ) → c ≢ 58 → (c == 58) ≡ false
not_colon c h = ground arith

-- A header whose line is one line, read back at its first colon.
pub record Clean (p : Text × Text) : Type 0 where
  pub name : NoColon p.0
  pub name_cr : NoCr p.0
  pub value_cr : NoCr p.1

-- The header lines, without their ends.
abbrev pub texts : Headers → List Text
texts [] = []
texts ((k, v) ∷ headers) = header_text k v ∷ texts headers

-- The name is what stands before the first colon of the line, and the value is behind ": ".
abbrev pub ReadsBack : Text × Text → Type 0
ReadsBack p = split_colon (header_text p.0 p.1) ≡ some (p.0, 32 ∷ p.1)

split_colon-header_text :
    (k v : Text) → NoColon k → split_colon (header_text k v) ≡ some (k, 32 ∷ v)
unfolding split_colon
split_colon-header_text [] v h = refl
split_colon-header_text (c ∷ k) v h =
    let here : (c == 58) ≡ false = not_colon c h.0 in
    rw (here, split_colon-header_text k v h.1) refl

pub texts-NoCr : (headers : Headers) → All Clean headers → All NoCr (texts headers)
texts-NoCr [] h = tt
texts-NoCr ((k, v) ∷ headers) h =
    (header_text-NoCr k v h.0.name_cr h.0.value_cr, texts-NoCr headers h.1)

pub All-ReadsBack : (headers : Headers) → All Clean headers → All ReadsBack headers
All-ReadsBack [] h = tt
All-ReadsBack ((k, v) ∷ headers) h =
    (split_colon-header_text k v h.0.name, All-ReadsBack headers h.1)

-- The entries of a template whose names hold no colon, where the test of the map's headers passes.
pub entries-Clean :
    (ordered : Headers)
    → headers_no_crlf ordered ≡ true
    → All (λ p. NoColon p.0) ordered
    → All Clean ordered
unfolding headers_no_crlf
entries-Clean [] h n = tt
entries-Clean ((k, v) ∷ ordered) h n =
    let (here, later) = and_both (no_crlf k && no_crlf v) (headers_no_crlf ordered) h in
    let (name, value) = and_both (no_crlf k) (no_crlf v) here in
    (
      record { name = n.0; name_cr = no_crlf-NoCr k name; value_cr = no_crlf-NoCr v value },
      entries-Clean ordered later n.1,
    )

unfoldable pub render : Headers → Text
unfolding header_line
render [] = []
render ((k, v) ∷ headers) = header_line k v ++ render headers

abbrev pub named : Text → Text → Bool
named name k = eq_ignore_ascii_case k name

abbrev pub has : Text → Headers → Bool
has name [] = false
has name ((k, v) ∷ headers) = named name k || has name headers

-- No header of the request frames the body other than by its length.
abbrev pub Frames : ℕ → Text × Text → Type 0
Frames body_len p =
    (named (lit "transfer-encoding") p.0 ≡ false)
    × (named (lit "content-length") p.0 ≡ true → p.1 ≡ usize_text body_len)

pub other_name :
    (k a b : Text)
    → named a k ≡ true
    → equal (to_ascii_lowercase a) (to_ascii_lowercase b) ≡ false
    → named b k ≡ false
unfolding eq_ignore_ascii_case
other_name k a b h d =
    let e : to_ascii_lowercase k ≡ to_ascii_lowercase a = (equal_iff _ _).0 h in rw e d

pub render-append : (a b : Headers) → render (a ++ b) ≡ render a ++ render b
unfolding render
render-append [] b = refl
render-append ((k, v) ∷ a) b =
    ap (λ z. header_line k v ++ z) (render-append a b)
    ∙ sym (append_assoc (header_line k v) (render a) (render b))

pub with_ends-texts : (headers : Headers) → with_ends (texts headers) ≡ render headers
unfolding render
with_ends-texts [] = refl
with_ends-texts ((k, v) ∷ headers) =
    sym (header_line-header_text k v (with_ends (texts headers)))
    ∙ ap (λ z. header_line k v ++ z) (with_ends-texts headers)

pub has-append : (name : Text) (a b : Headers) → has name (a ++ b) ≡ (has name a || has name b)
has-append name [] b = refl
has-append name ((k, v) ∷ a) b = ground (arith, has-append name a b)

pub usize_text-NoCr : (n : ℕ) → NoCr (usize_text n)
unfolding usize_text
usize_text-NoCr n = digits-NoCr 20 n

-- No colon, as a test.
abbrev without_colon : Text → Bool
without_colon [] = true
without_colon (c ∷ s) = not (c == 58) && without_colon s

test_colon : (c : ℕ) → not (c == 58) ≡ true → c ≢ 58
test_colon c h e = ground arith

pub lit-NoColon : (s : Text) → without_colon s ≡ true → NoColon s
lit-NoColon [] h = tt
lit-NoColon (c ∷ s) h =
    let (here, later) = and_both (not (c == 58)) (without_colon s) h in
    (test_colon c here, lit-NoColon s later)

pub literal-Clean :
    (k v : Text) → without_colon k ≡ true → without_cr k ≡ true → NoCr v → Clean (k, v)
literal-Clean k v colon cr h = record {
  name = lit-NoColon k colon;
  name_cr = lit-NoCr k cr;
  value_cr = h;
}
