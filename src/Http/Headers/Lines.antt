-- ===== src/Http/Headers/Lines.antt =====
-- Splitting a head at its line ends, as `parse_headers` of enclave/src/main.rs does: a text of lines
-- without a carriage return is split into these lines.
use proof_of_observation.Base.{
  ℕ, ◌≡◌, ◌≢◌, refl, sym, ap, ◌∙◌, Bool, true, false, not, ◌&&◌, ◌||◌, List, [], ◌∷◌, ◌++◌,
  append_assoc, arith, Bytes, All, ◌⊎◌, inl, inr, ◌==◌, if◌then◌else◌,
}
use proof_of_observation.Text.{Text, extend_first}
use proof_of_observation.Text.Utf8.{encode_char, as_bytes}
use proof_of_observation.Statement.{any_crlf, no_crlf}
use proof_of_observation.Http.Headers.{split_crlf, starts_lf, drop_lf}
use proof_of_observation.Http.Request.{line_end}

-- No carriage return among the characters.
abbrev pub NoCr : Text → Type 0
NoCr s = All (λ c. c ≢ 13) s

or_assoc : (a b c : Bool) → (a || (b || c)) ≡ ((a || b) || c)
or_assoc true b c = refl
or_assoc false b c = refl

any_crlf-append : (a b : Bytes) → any_crlf (a ++ b) ≡ (any_crlf a || any_crlf b)
unfolding any_crlf
any_crlf-append [] b = refl
any_crlf-append (c ∷ a) b =
    ap (λ z. (c == 13 || c == 10) || z) (any_crlf-append a b)
    ∙ or_assoc (c == 13 || c == 10) (any_crlf a) (any_crlf b)

neither : (a b : Bool) → not (a || b) ≡ true → (a ≡ false) × (b ≡ false)
neither true b h = cc
neither false true h = cc
neither false false h = (refl, refl)

-- No line break among the characters.
abbrev pub NoBreak : Text → Type 0
NoBreak s = All (λ c. (c ≢ 13) × (c ≢ 10)) s

encode_break : (c : ℕ) → (c ≡ 13) ⊎ (c ≡ 10) → any_crlf (encode_char c) ≡ true
unfolding any_crlf encode_char
encode_break c (inl h) = rw h refl
encode_break c (inr h) = rw h refl

not_both : (b : Bool) → b ≡ true → b ≡ false → ⊥
not_both b h k = cc

-- What passes the test has no carriage return and no line feed.
pub no_crlf-NoBreak : (s : Text) → no_crlf s ≡ true → NoBreak s
unfolding no_crlf as_bytes
no_crlf-NoBreak [] h = tt
no_crlf-NoBreak (c ∷ s) h =
    let parts =
      neither (any_crlf (encode_char c)) (any_crlf (as_bytes s))
        (ap not (sym (any_crlf-append (encode_char c) (as_bytes s))) ∙ h) in
    (
      (
        λ e. not_both _ (encode_break c (inl e)) parts.0,
        λ e. not_both _ (encode_break c (inr e)) parts.0,
      ),
      no_crlf-NoBreak s (ap not parts.1),
    )

NoBreak-NoCr : (s : Text) → NoBreak s → NoCr s
NoBreak-NoCr [] h = tt
NoBreak-NoCr (c ∷ s) h = (h.0.0, NoBreak-NoCr s h.1)

pub no_crlf-NoCr : (s : Text) → no_crlf s ≡ true → NoCr s
no_crlf-NoCr s h = NoBreak-NoCr s (no_crlf-NoBreak s h)

drop-extend : (s : Text) → drop_lf (extend_first 10 (split_crlf s)) ≡ split_crlf s
unfolding split_crlf
drop-extend [] = refl
drop-extend (c ∷ s) = go (c == 13 && starts_lf s) (split_crlf s)
  where
    go :
        (b : Bool) (parts : List Text)
        → drop_lf (extend_first 10 (if b then [] ∷ drop_lf parts else extend_first c parts))
          ≡ (if b then [] ∷ drop_lf parts else extend_first c parts)
    go true parts = refl
    go false [] = refl
    go false (part ∷ parts) = refl

not_cr : (c : ℕ) (b : Bool) → c ≢ 13 → (c == 13 && b) ≡ false
not_cr c b h = let e : (c == 13) ≡ false = ground arith in rw e refl

split_crlf-line :
    (l rest : Text) → NoCr l → split_crlf (l ++ (13 ∷ 10 ∷ rest)) ≡ l ∷ split_crlf rest
unfolding split_crlf
split_crlf-line [] rest h = ap (λ z. [] ∷ z) (drop-extend rest)
split_crlf-line (c ∷ l) rest h =
    rw (not_cr c (starts_lf (l ++ (13 ∷ 10 ∷ rest))) h.0)
      (ap (extend_first c) (split_crlf-line l rest h.1))

-- Lines with their ends.
abbrev pub with_ends : List Text → Text
with_ends [] = []
with_ends (l ∷ ls) = l ++ (line_end ++ with_ends ls)

pub split_crlf-with_ends :
    (ls : List Text) → All NoCr ls → split_crlf (with_ends ls) ≡ ls ++ ([] ∷ [])
unfolding split_crlf
split_crlf-with_ends [] h = refl
split_crlf-with_ends (l ∷ ls) h =
    split_crlf-line l (with_ends ls) h.0 ∙ ap (λ z. l ∷ z) (split_crlf-with_ends ls h.1)

pub with_ends-append : (a b : List Text) → with_ends (a ++ b) ≡ with_ends a ++ with_ends b
with_ends-append [] b = refl
with_ends-append (l ∷ a) b =
    ap (λ z. l ++ (line_end ++ z)) (with_ends-append a b)
    ∙ sym (append_assoc l (line_end ++ with_ends a) (with_ends b))
