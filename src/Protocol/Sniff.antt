-- ===== src/Protocol/Sniff.antt =====
-- `body_prefix_indicates_sse` of enclave/src/main.rs, asked again each time more of a body is there.
use proof_of_observation.Base.{
  ℕ, zero, suc, ◌-◌, ◌≤◌, ◌≡◌, refl, sym, subst, ap, ◌∙◌, ◌⊎◌, inl, inr, Bool, true, false, ◌&&◌,
  ◌||◌, [], ◌∷◌, ◌++◌, Bytes, arith, length, take, take-append, ◌==◌, ltb, Bool-cases,
}
use proof_of_observation.Text.{Text, lit, starts_with, trim_start_matches, is_whitespace}
use proof_of_observation.Text.Utf8.{Step, char, bad, decode_step, shown, from_utf8_lossy}
use proof_of_observation.Text.Utf8.Lossy.{
  Tail-length, decode_step-Tail, lossy_cons, Stable, decode_step-Stable,
}
use proof_of_observation.Protocol.{space_or_bom, max_stream_sniff_bytes, body_prefix_indicates_sse}

-- The text of `x ∷ r`, by the step at its front.
abbrev text_of : Step → Text
text_of step = (shown step).0 ∷ from_utf8_lossy (shown step).1

-- More bytes after a character leave it, and come after the bytes that are left.
text_more :
    (x : ℕ) (r more : Bytes) (c : ℕ) (rest : Bytes)
    → decode_step x r ≡ char c rest
    → from_utf8_lossy (x ∷ (r ++ more)) ≡ c ∷ from_utf8_lossy (rest ++ more)
text_more x r more c rest e =
    lossy_cons x (r ++ more)
    ∙ ap text_of
        (subst (λ v. Stable more v (decode_step x (r ++ more))) e (decode_step-Stable x r more))

false_absurd : false ≡ true → ⊥
false_absurd e = ground arith

and_left : (a b : Bool) → (a && b) ≡ true → a ≡ true
and_left true b h = refl
and_left false b h = h

and_right : (a b : Bool) → (a && b) ≡ true → b ≡ true
and_right true b h = h
and_right false b h = absurd (false_absurd h)

both_and : (a : Bool) {b : Bool} → a ≡ true → b ≡ true → (a && b) ≡ true
both_and a h k = rw h k

no_bad : (k : ℕ) → ltb k 0x80 ≡ true → (k == 0xfffd) ≡ false
no_bad k h = ground arith

-- All below 0x80.
abbrev ascii : Text → Bool
ascii [] = true
ascii (k ∷ p) = ltb k 0x80 && ascii p

starts_step :
    (k : ℕ) (p : Text) (x : ℕ) (r more : Bytes) (v : Step)
    → ltb k 0x80 ≡ true
    → ((s : Bytes)
        → starts_with p (from_utf8_lossy s) ≡ true
        → starts_with p (from_utf8_lossy (s ++ more)) ≡ true)
    → decode_step x r ≡ v
    → starts_with (k ∷ p) (text_of v) ≡ true
    → starts_with (k ∷ p) (from_utf8_lossy (x ∷ (r ++ more))) ≡ true
unfolding starts_with
starts_step k p x r more (bad rest) h ih w t =
    absurd (false_absurd (sym (no_bad k h) ∙ and_left (k == 0xfffd) _ t))
starts_step k p x r more (char c rest) h ih w t =
    ap (starts_with (k ∷ p)) (text_more x r more c rest w)
    ∙ both_and (k == c) (and_left (k == c) _ t) (ih rest (and_right (k == c) _ t))

-- An ASCII start of the lossy text stays when more bytes come.
starts-more :
    (p : Text) (s more : Bytes)
    → ascii p ≡ true
    → starts_with p (from_utf8_lossy s) ≡ true
    → starts_with p (from_utf8_lossy (s ++ more)) ≡ true
unfolding starts_with from_utf8_lossy
starts-more [] s more h e = refl
starts-more (k ∷ p) [] more h e = absurd (false_absurd e)
starts-more (k ∷ p) (x ∷ r) more h e =
    starts_step k p x r more (decode_step x r) (and_left _ (ascii p) h)
      (λ s. starts-more p s more (and_right _ (ascii p) h)) refl
      (ap (starts_with (k ∷ p)) (sym (lossy_cons x r)) ∙ e)

or_cases : (a b : Bool) → (a || b) ≡ true → (a ≡ true) ⊎ (b ≡ true)
or_cases true b h = inl refl
or_cases false b h = inr h

or_left : (a b : Bool) → a ≡ true → (a || b) ≡ true
or_left a b h = rw h refl

or_right : (a b : Bool) → b ≡ true → (a || b) ≡ true
or_right true b h = refl
or_right false b h = h

abbrev prefixed : Text → Bool
prefixed t =
    starts_with (lit "data:") t || (starts_with (lit "event:") t || starts_with (lit ":") t)

prefixed-more :
    (s more : Bytes)
    → prefixed (from_utf8_lossy s) ≡ true
    → prefixed (from_utf8_lossy (s ++ more)) ≡ true
prefixed-more s more h = go (or_cases _ _ h)
  where
    ends :
        ((starts_with (lit "event:") (from_utf8_lossy s)) ≡ true)
          ⊎ (starts_with (lit ":") (from_utf8_lossy s) ≡ true)
        → (starts_with (lit "event:") (from_utf8_lossy (s ++ more))
            || starts_with (lit ":") (from_utf8_lossy (s ++ more)))
          ≡ true
    ends (inl e) = or_left _ _ (starts-more (lit "event:") s more refl e)
    ends (inr e) = or_right _ _ (starts-more (lit ":") s more refl e)

    go :
        (starts_with (lit "data:") (from_utf8_lossy s) ≡ true)
          ⊎ ((starts_with (lit "event:") (from_utf8_lossy s)
                || starts_with (lit ":") (from_utf8_lossy s))
              ≡ true)
        → prefixed (from_utf8_lossy (s ++ more)) ≡ true
    go (inl e) = or_left _ _ (starts-more (lit "data:") s more refl e)
    go (inr e) = or_right _ _ (ends (or_cases _ _ e))

abbrev trimmed : Text → Text
trimmed = trim_start_matches space_or_bom

trimmed_space : (c : ℕ) (t : Text) → space_or_bom c ≡ true → trimmed (c ∷ t) ≡ trimmed t
unfolding trim_start_matches
trimmed_space c t h = rw h refl

trimmed_char : (c : ℕ) (t : Text) → space_or_bom c ≡ false → trimmed (c ∷ t) ≡ c ∷ t
unfolding trim_start_matches
trimmed_char c t h = rw h refl

nothing_sniffs : prefixed (trimmed []) ≡ true → ⊥
unfolding trim_start_matches starts_with
nothing_sniffs h = false_absurd h

not_space : space_or_bom 0xfffd ≡ false
unfolding is_whitespace
not_space = refl

abbrev Sniffs : Text → Type 0
Sniffs t = prefixed (trimmed t) ≡ true

Sniffs-step :
    (x : ℕ) (r more : Bytes) (v : Step)
    → (Sniffs (from_utf8_lossy (shown v).1) → Sniffs (from_utf8_lossy ((shown v).1 ++ more)))
    → decode_step x r ≡ v
    → Sniffs (text_of v)
    → Sniffs (from_utf8_lossy (x ∷ (r ++ more)))
unfolding starts_with
Sniffs-step x r more (bad rest) ih w t =
    absurd
      (false_absurd (ap prefixed (sym (trimmed_char 0xfffd (from_utf8_lossy rest) not_space)) ∙ t))
Sniffs-step x r more (char c rest) ih w t = elim (Bool-cases (space_or_bom c)) [
  | inl space ↦
      ap (λ z. prefixed (trimmed z)) (text_more x r more c rest w)
      ∙ ap prefixed (trimmed_space c (from_utf8_lossy (rest ++ more)) space)
      ∙ ih (ap prefixed (sym (trimmed_space c (from_utf8_lossy rest) space)) ∙ t)
  | inr other ↦
      ap (λ z. prefixed (trimmed z)) (text_more x r more c rest w)
      ∙ ap prefixed (trimmed_char c (from_utf8_lossy (rest ++ more)) other)
      ∙ ap prefixed (sym (text_more x r more c rest w))
      ∙ prefixed-more (x ∷ r) more (
          ap prefixed (lossy_cons x r ∙ ap text_of w)
          ∙ ap prefixed (sym (trimmed_char c (from_utf8_lossy rest) other))
          ∙ t)
]

Sniffs-more :
    (n : ℕ) (s more : Bytes)
    → length s ≤ n
    → Sniffs (from_utf8_lossy s)
    → Sniffs (from_utf8_lossy (s ++ more))
unfolding from_utf8_lossy
Sniffs-more n [] more k h = absurd (nothing_sniffs h)
Sniffs-more zero (x ∷ r) more k h = absurd (omega arith)
Sniffs-more (suc n) (x ∷ r) more k h =
    let rest = (shown (decode_step x r)).1 in
    Sniffs-step x r more (decode_step x r)
      (Sniffs-more n rest more (omega (arith, Tail-length rest r (decode_step-Tail x r)))) refl
      (ap (λ z. prefixed (trimmed z)) (sym (lossy_cons x r)) ∙ h)

-- A body whose start says that it is an event stream still says so when more bytes come, even where
-- the first bytes end inside a character.
pub body_prefix_indicates_sse-append :
    (body more : Bytes)
    → body_prefix_indicates_sse body ≡ true
    → body_prefix_indicates_sse (body ++ more) ≡ true
unfolding body_prefix_indicates_sse
body_prefix_indicates_sse-append body more h =
    ap (λ z. prefixed (trimmed (from_utf8_lossy z))) (take-append max_stream_sniff_bytes body more)
    ∙ Sniffs-more (length (take max_stream_sniff_bytes body)) (take max_stream_sniff_bytes body)
        (take (max_stream_sniff_bytes - length body) more) (omega arith) h
