-- ===== src/Profile/Canonical/Rules.antt =====
-- Rules for what a successful run of a reader of enclave/src/tls_profile.rs has taken.
use proof_of_observation.Base.{
  ℕ, ◌≤◌, ◌≡◌, refl, sym, ap, ◌∙◌, subst, [], ◌++◌, append_assoc, arith, Bytes, IsByte, All,
  All-append, length, take, drop, drop-add, take-append-drop, length-take_le, length-drop, Result,
  ok, err,
}
use proof_of_observation.Profile.Decode.{
  DecodeError, Decoder, Reader, ◌>>=◌, pure, fail, take_bytes,
}

abbrev pub rest : Decoder → Bytes
rest d = drop d.i d.b

-- A successful run of `m` takes bytes `xs` off the rest of the input, and `R` holds of its value
-- and of them.
pub record Parses {A : Type 0} (m : Reader A) (R : A → Bytes → Type 0) : Type 0 where
  pub run :
      (d d' : Decoder) (a : A)
      → All IsByte (rest d)
      → m d ≡ ok (a, d')
      → (xs : Bytes) × (rest d ≡ xs ++ rest d') × R a xs

-- The bytes are the encoding of the value, and the value is in range.
abbrev pub Enc : {A : Type 0} → (A → Bytes) → (A → Type 0) → A → Bytes → Type 0
Enc e V a xs = (xs ≡ e a) × V a

pub pure_inv : {A : Type 0} (a x : A) (d d' : Decoder) → pure a d ≡ ok (x, d') → (a ≡ x) × (d ≡ d')
unfolding pure
pure_inv a x d d' e = (cc, cc)

pub Parses-pure : {A : Type 0} (a : A) {R : A → Bytes → Type 0} → R a [] → Parses (pure a) R
unfolding pure
Parses-pure a {R} r = record {
  run = λ d d' x bs e.
      let (same, there) = pure_inv a x d d' e in ([], ap rest there, subst (λ y. R y []) same r);
}

pub Parses-fail : {A : Type 0} (e : DecodeError) {R : A → Bytes → Type 0} → Parses (fail e) R
unfolding fail
Parses-fail e = record { run = λ d d' x bs h. cc }

pub bind_inv :
    {A B : Type 0} (m : Reader A) (f : A → Reader B) (d d' : Decoder) {b : B}
    → (m >>= f) d ≡ ok (b, d')
    → (a : A) × (d₁ : Decoder) × (m d ≡ ok (a, d₁)) × (f a d₁ ≡ ok (b, d'))
unfolding ◌>>=◌
bind_inv {A} {B} m f d d' {b} h = go (m d) refl h
  where
    go :
        (r : Result DecodeError (A × Decoder))
        → m d ≡ r
        → (elim r [ ok (a, d₁) ↦ f a d₁ | err e ↦ err e ]) ≡ ok (b, d')
        → (a : A) × (d₁ : Decoder) × (m d ≡ ok (a, d₁)) × (f a d₁ ≡ ok (b, d'))
    go (ok (a, d₁)) e k = (a, d₁, e, k)
    go (err x) e k = cc

pub Parses-bind_any :
    {A B : Type 0} (m : Reader A) (f : A → Reader B) {R : A → Bytes → Type 0}
    {S : B → Bytes → Type 0}
    → Parses m R
    → ((a : A) (xs : Bytes) → R a xs → Parses (f a) (λ b ys. S b (xs ++ ys)))
    → Parses (m >>= f) S
Parses-bind_any m f rm rf = record {
  run = λ d d' b bs h.
      let (a, d₁, hm, hf) = bind_inv m f d d' h in
      let (xs, split, r) = rm.run d d₁ a bs hm in
      let rest_bytes = ((All-append IsByte xs (rest d₁)).0 (subst (All IsByte) split bs)).1 in
      let (ys, split', s) = (rf a xs r).run d₁ d' b rest_bytes hf in
      (xs ++ ys, split ∙ ap (λ z. xs ++ z) split' ∙ sym (append_assoc xs ys (rest d')), s);
}

pub Parses-bind :
    {A B : Type 0} (m : Reader A) (f : A → Reader B) {e : A → Bytes} {V : A → Type 0}
    {S : B → Bytes → Type 0}
    → Parses m (Enc e V)
    → ((a : A) → V a → Parses (f a) (λ b ys. S b (e a ++ ys)))
    → Parses (m >>= f) S
Parses-bind m f {S} rm rf =
    Parses-bind_any m f rm
      (λ a xs r. subst (λ z. Parses (f a) (λ b ys. S b (z ++ ys))) (sym r.0) (rf a r.1))

pub take_bytes_inv :
    (n : ℕ) (d d' : Decoder) (s : Bytes)
    → take_bytes n d ≡ ok (s, d')
    → (s ≡ take n (rest d)) × (rest d' ≡ drop n (rest d)) × (n ≤ length (rest d))
unfolding take_bytes
take_bytes_inv n d d' s h = ground (arith, drop-add d.i n d.b, length-drop d.i d.b)

abbrev pub IsSlice : ℕ → Bytes → Type 0
IsSlice n s = (length s ≡ n) × All IsByte s

pub Parses-take_bytes : (n : ℕ) → Parses (take_bytes n) (Enc (λ s. s) (IsSlice n))
Parses-take_bytes n = record {
  run = λ d d' s bs h.
      let (taken, left, fits) = take_bytes_inv n d d' s h in
      let split = sym (take-append-drop n (rest d)) in
      let ours = ((All-append IsByte _ _).0 (subst (All IsByte) split bs)).0 in
      (
        take n (rest d),
        split ∙ ap (λ z. take n (rest d) ++ z) (sym left),
        (
          sym taken,
          (rw taken (length-take_le n (rest d) fits), subst (All IsByte) (sym taken) ours),
        ),
      );
}

pub Parses-weaken :
    {A : Type 0} (m : Reader A) {R S : A → Bytes → Type 0}
    → Parses m R
    → ((a : A) (xs : Bytes) → R a xs → S a xs)
    → Parses m S
Parses-weaken m r w = record {
  run = λ d d' a bs h. let (xs, split, q) = r.run d d' a bs h in (xs, split, w a xs q);
}
