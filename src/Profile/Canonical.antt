-- ===== src/Profile/Canonical.antt =====
-- Decoding accepts one encoding of each profile, the canonical one.
mod Rules
mod Parts
use proof_of_observation.Base.{
  ℕ, zero, suc, ◌+◌, ◌*◌, ◌/◌, ◌%◌, ◌^◌, ◌≤◌, ◌<◌, ◌≡◌, refl, sym, ap, ◌∙◌, subst, Option, none,
  some, List, [], ◌∷◌, ◌++◌, append_assoc, append-nil, arith, Bytes, IsByte, All, All-append,
  All-drop, length, take, drop, Option-cases, ==_iff, ◌==◌, if◌then◌else◌, Bool, true, false,
  Bool-cases, inl, inr, drop-add, drop_all, take-append-drop, length-take_le, length-drop,
  length-append, Result, ok, err,
}
use proof_of_observation.Words.{be16, be32, be64, big_endian}
use proof_of_observation.Text.{Text}
use proof_of_observation.Text.Utf8.{IsScalar, as_bytes, from_utf8}
use proof_of_observation.Text.Utf8.RoundTrip.{as_bytes-from_utf8}
use proof_of_observation.Profile.{
  Stack, TlsVersion, GreasePolicy, ExtOrder, CertPolicy, H2Settings, TlsProfile, IsU16, IsU32,
  IsU64, IsText, IsTexts, IsSetting, IsH2, IsOptionH2, IsProfile, rustls, boring, open_ssl,
  rustls_aws_lc, tls12, tls13, disabled, enabled, fixed, permute_per_session, webpki_roots,
}
use proof_of_observation.Profile.Encode.{
  str_bytes, each_bytes, strs_bytes, settings_bytes, h2_body, h2_bytes, layout, stack_tag,
  grease_tag, ext_order_tag, tls_version_tag, cert_policy_tag, canonical_encode,
  canonical_encode-layout,
}
use proof_of_observation.Profile.Decode.{
  DecodeError, utf8, Decoder, Reader, ◌>>=◌, pure, fail, take_bytes, word, u8, u16, u32, u64, len,
  bytes, checked, str, strs_loop, strs, settings_loop, stack_of, grease_of, ext_order_of,
  tls_version_of, cert_policy_of, h2_settings, h2_of, at_end, fields, profile, value, decode,
}
use Rules.{
  pure_inv, bind_inv, rest, Parses, Enc, Parses-pure, Parses-fail, Parses-bind, Parses-bind_any,
  Parses-weaken,
}
use Parts.{Pushed, Parses-u8, Parses-u32, Parses-u64, Parses-str, Parses-strs, Parses-settings_loop}

Parses-if :
    {A : Type 0} (b : Bool) (m n : Reader A) {R : A → Bytes → Type 0}
    → (b ≡ true → Parses m R)
    → (b ≡ false → Parses n R)
    → Parses (if b then m else n) R
Parses-if true m n pm pn = pm refl
Parses-if false m n pm pn = pn refl

-- The value that a tag byte selects has that tag.
abbrev Selects : {A : Type 0} → (A → ℕ) → ℕ → A → Bytes → Type 0
Selects tag t = Enc (λ _. []) (λ a. t ≡ tag a)

-- One test of a tag, with the later tests behind it.
Parses-select :
    {A : Type 0} (tag : A → ℕ) (t : ℕ) (a : A) (later : Reader A)
    → Parses later (Selects tag t)
    → Parses (if t == tag a then pure a else later) (Selects tag t)
Parses-select tag t a later p =
    Parses-if (t == tag a) (pure a) later (λ e. Parses-pure a (refl, (==_iff t (tag a)).0 e))
      (λ _. p)

Parses-stack_of : (t : ℕ) → Parses (stack_of t) (Selects stack_tag t)
unfolding stack_of
Parses-stack_of t = Parses-select stack_tag t rustls _ (
    Parses-select stack_tag t boring _ (
      Parses-select stack_tag t open_ssl _
        (Parses-select stack_tag t rustls_aws_lc _ (Parses-fail _))))

Parses-grease_of : (t : ℕ) → Parses (grease_of t) (Selects grease_tag t)
unfolding grease_of
Parses-grease_of t =
    Parses-select grease_tag t disabled _ (Parses-select grease_tag t enabled _ (Parses-fail _))

Parses-ext_order_of : (t : ℕ) → Parses (ext_order_of t) (Selects ext_order_tag t)
unfolding ext_order_of
Parses-ext_order_of t =
    Parses-select ext_order_tag t fixed _
      (Parses-select ext_order_tag t permute_per_session _ (Parses-fail _))

Parses-tls_version_of : (t : ℕ) → Parses (tls_version_of t) (Selects tls_version_tag t)
unfolding tls_version_of
Parses-tls_version_of t =
    Parses-select tls_version_tag t tls12 _
      (Parses-select tls_version_tag t tls13 _ (Parses-fail _))

Parses-cert_policy_of : (t : ℕ) → Parses (cert_policy_of t) (Selects cert_policy_tag t)
unfolding cert_policy_of
Parses-cert_policy_of t = Parses-select cert_policy_tag t webpki_roots _ (Parses-fail _)

Parses-tagged :
    {A B : Type 0} (of : ℕ → Reader A) (tag : A → ℕ) (f : A → Reader B) {S : B → Bytes → Type 0}
    → ((t : ℕ) → Parses (of t) (Selects tag t))
    → ((a : A) → Parses (f a) (λ b ys. S b (tag a ∷ ys)))
    → Parses (do t ← u8; x ← of t; f x) S
Parses-tagged of tag f {S} ps pf =
    Parses-bind u8 (λ t. of t >>= f) Parses-u8
      (λ t _.
        Parses-bind (of t) f (ps t)
          (λ a e. subst (λ k. Parses (f a) (λ b ys. S b (k ∷ ys))) (sym e) (pf a)))

Parses-h2_settings : Parses h2_settings (Enc h2_body IsH2)
unfolding h2_settings h2_body
Parses-h2_settings = Parses-bind len _ Parses-u32 (λ n v.
    Parses-bind (settings_loop n []) _ {e = settings_bytes}
      {V = λ ps. All IsSetting ps × (length ps ≡ n)}
      (Parses-weaken (settings_loop n []) (Parses-settings_loop n []) (λ r xs p. (
        p.2 ∙ ap settings_bytes (sym p.1),
        (subst (All IsSetting) (sym p.1) p.3, ap length p.1 ∙ p.4),
      )))
      (λ ps k. Parses-bind u32 _ Parses-u32 (λ w kw. Parses-bind strs _ Parses-strs (λ order ko.
        let e : length ps % 2 ^ 32 ≡ n = omega arith in
        Parses-pure _ (
          rw (e, append-nil),
          record { settings = (k.0, omega arith); window_update = kw; pseudo_header_order = ko },
        )))))

Parses-h2_of_one : Parses (h2_of 1) (λ o xs. Enc h2_bytes IsOptionH2 o (1 ∷ xs))
unfolding h2_of h2_bytes
Parses-h2_of_one =
    Parses-bind h2_settings (λ h. pure (some h)) Parses-h2_settings
      (λ h v. Parses-pure (some h) (ap (◌∷◌ 1) (append-nil (h2_body h)), v))

Parses-h2_of : (t : ℕ) → Parses (h2_of t) (λ o xs. Enc h2_bytes IsOptionH2 o (t ∷ xs))
Parses-h2_of t = elim (Bool-cases (t == 0)) [
  | inl e ↦ rw ((==_iff t 0).0 e) (unfold h2_of h2_bytes in Parses-pure none (refl, tt))
  | inr n ↦ elim (Bool-cases (t == 1)) [
    | inl e ↦ rw ((==_iff t 1).0 e) Parses-h2_of_one
    | inr k ↦ unfold h2_of in rw (n, k) (Parses-fail _)
  ]
]

Parses-h2_last :
    {B : Type 0} (f : Option H2Settings → B) {S : B → Bytes → Type 0}
    → ((o : Option H2Settings) (xs : Bytes) → xs ≡ h2_bytes o → IsOptionH2 o → S (f o) xs)
    → Parses (do t ← u8; o ← h2_of t; pure (f o)) S
Parses-h2_last f {S} k =
    Parses-bind u8 (λ t. h2_of t >>= λ o. pure (f o)) Parses-u8
      (λ t _.
        Parses-bind_any (h2_of t) (λ o. pure (f o)) (Parses-h2_of t)
          (λ o xs r. Parses-pure (f o) (rw append-nil (k o (t ∷ xs) r.0 r.1))))

Parses-fields : Parses fields (Enc layout IsProfile)
unfolding fields layout
Parses-fields = Parses-bind u32 _ Parses-u32 (λ spec_id h₁.
    Parses-bind u64 _ Parses-u64 (λ issued_at h₂. Parses-bind str _ Parses-str (λ label h₃.
      Parses-tagged stack_of stack_tag _ Parses-stack_of (λ stack.
        Parses-bind str _ Parses-str (λ cipher_list h₄.
          Parses-bind strs _ Parses-strs (λ sigalgs h₅. Parses-bind strs _ Parses-strs (λ groups h₆.
            Parses-bind strs _ Parses-strs (λ alpn h₇.
              Parses-tagged grease_of grease_tag _ Parses-grease_of (λ grease.
                Parses-tagged ext_order_of ext_order_tag _ Parses-ext_order_of (λ order.
                  Parses-tagged tls_version_of tls_version_tag _ Parses-tls_version_of (λ version.
                    Parses-tagged cert_policy_of cert_policy_tag _ Parses-cert_policy_of (λ cert.
                      Parses-h2_last _ (λ h2 xs e v. (
                        rw e refl,
                        record {
                          spec_id = h₁;
                          issued_at = h₂;
                          label = h₃;
                          cipher_list = h₄;
                          sigalgs = h₅;
                          groups = h₆;
                          alpn = h₇;
                          h2 = v;
                        },
                      ))))))))))))))

value_inv :
    (r : Result DecodeError (TlsProfile × Decoder)) {p : TlsProfile}
    → value r ≡ ok p
    → (d : Decoder) × (r ≡ ok (p, d))
value_inv (ok (q, d)) h = (d, cc)
value_inv (err e) h = cc

at_end_inv : (d d' : Decoder) (u : Unit {0}) → at_end d ≡ ok (u, d') → rest d ≡ []
unfolding at_end
at_end_inv d d' u h = let e : d.i ≡ length d.b = ground arith in rw e (drop_all d.b)

-- Whatever byte string decodes is the canonical encoding of the profile that it decodes to, and
-- that profile holds values in range.
pub canonical_encode-decode :
    (b : Bytes) (p : TlsProfile)
    → All IsByte b
    → decode b ≡ ok p
    → (canonical_encode p ≡ b) × IsProfile p
unfolding decode profile
canonical_encode-decode b p bytes h =
    let start : Decoder = record { b = b; i = 0 } in
    let (d, run) = value_inv _ h in
    let (a, d₁, first, later) = bind_inv fields _ start d run in
    let (u, d₂, ended, made) = bind_inv at_end _ d₁ d later in
    let (xs, split, (same, valid)) = Parses-fields.run start d₁ a bytes first in
    let here : a ≡ p = (pure_inv a p d₂ d made).0 in
    (
      canonical_encode-layout p
          ∙ ap layout (sym here)
          ∙ sym (split ∙ ap (λ z. xs ++ z) (at_end_inv d₁ d₂ u ended) ∙ append-nil xs ∙ same),
      subst IsProfile here valid,
    )
