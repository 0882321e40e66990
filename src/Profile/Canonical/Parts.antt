-- ===== src/Profile/Canonical/Parts.antt =====
-- What each reader of enclave/src/tls_profile.rs takes is the encoding of its value.
use proof_of_observation.Base.{
  ℕ, zero, suc, ◌%◌, ◌^◌, ◌≡◌, refl, sym, ap, ◌∙◌, subst, List, [], ◌∷◌, ◌++◌, append_assoc,
  append-nil, arith, Bytes, IsByte, All, length, Option-cases, inl, inr,
}
use proof_of_observation.Words.{be16, be32, be64, big_endian}
use proof_of_observation.Text.{Text}
use proof_of_observation.Text.Utf8.{from_utf8}
use proof_of_observation.Text.Utf8.RoundTrip.{as_bytes-from_utf8}
use proof_of_observation.Profile.{IsU16, IsU32, IsU64, IsText, IsTexts, IsSetting}
use proof_of_observation.Profile.Encode.{str_bytes, each_bytes, strs_bytes, settings_bytes}
use proof_of_observation.Profile.Decode.{
  utf8, pure, take_bytes, word, u8, u16, u32, u64, len, bytes, checked, str, strs_loop, strs,
  settings_loop,
}
use proof_of_observation.Profile.Canonical.Rules.{
  Parses, Enc, Parses-pure, Parses-fail, Parses-bind, Parses-take_bytes, Parses-weaken,
}

-- A word of `n` bytes, given its encoding.
pub Parses-word :
    (n : ℕ) {e : ℕ → Bytes} {V : ℕ → Type 0}
    → ((s : Bytes) → length s ≡ n → All IsByte s → Enc e V (big_endian 0 s) s)
    → Parses (word n) (Enc e V)
unfolding word
Parses-word n {e} {V} back =
    Parses-bind (take_bytes n) (λ s. pure (big_endian 0 s)) (Parses-take_bytes n)
      (λ s v.
        Parses-pure (big_endian 0 s)
          (subst (λ z. Enc e V (big_endian 0 s) z) (sym (append-nil s)) (back s v.0 v.1)))

word_of_one :
    (s : Bytes) → length s ≡ 1 → All IsByte s → Enc (λ v. v ∷ []) IsByte (big_endian 0 s) s
word_of_one (a ∷ []) h bs = ground arith
word_of_one [] h bs = absurd (omega arith)
word_of_one (a ∷ (b ∷ s)) h bs = absurd (omega arith)

word_of_two : (s : Bytes) → length s ≡ 2 → All IsByte s → Enc be16 IsU16 (big_endian 0 s) s
unfolding be16
word_of_two (a ∷ (b ∷ [])) h bs = ground arith
word_of_two _ h bs = absurd (omega arith)

word_of_four : (s : Bytes) → length s ≡ 4 → All IsByte s → Enc be32 IsU32 (big_endian 0 s) s
unfolding be32
word_of_four (a ∷ (b ∷ (c ∷ (d ∷ [])))) h bs = ground arith
word_of_four _ h bs = absurd (omega arith)

word_of_eight : (s : Bytes) → length s ≡ 8 → All IsByte s → Enc be64 IsU64 (big_endian 0 s) s
unfolding be64
word_of_eight (a ∷ (b ∷ (c ∷ (d ∷ (e ∷ (f ∷ (g ∷ (k ∷ [])))))))) h bs = ground arith
word_of_eight _ h bs = absurd (omega arith)

pub Parses-u8 : Parses u8 (Enc (λ v. v ∷ []) IsByte)
Parses-u8 = Parses-word 1 word_of_one

pub Parses-u16 : Parses u16 (Enc be16 IsU16)
Parses-u16 = Parses-word 2 word_of_two

pub Parses-u32 : Parses u32 (Enc be32 IsU32)
Parses-u32 = Parses-word 4 word_of_four

pub Parses-u64 : Parses u64 (Enc be64 IsU64)
Parses-u64 = Parses-word 8 word_of_eight

pub Parses-bytes : Parses bytes (Enc (λ b. be32 (length b % 2 ^ 32) ++ b) (λ b. IsU32 (length b)))
Parses-bytes = Parses-bind len take_bytes Parses-u32 (λ n v.
    Parses-weaken (take_bytes n) (Parses-take_bytes n)
      (λ b xs r. let e : length b % 2 ^ 32 ≡ n = omega arith in (rw (e, r.0) refl, omega arith)))

pub Parses-checked :
    (b : Bytes)
    → IsU32 (length b)
    → Parses
        (checked (from_utf8 b))
        (λ t ys. Enc str_bytes IsText t ((be32 (length b % 2 ^ 32) ++ b) ++ ys))
unfolding checked str_bytes
Parses-checked b v = elim (Option-cases (from_utf8 b)) [
  | inl e ↦ rw e (Parses-fail utf8)
  | inr (t, e) ↦
      let (same, scalars) = as_bytes-from_utf8 b t e in
      rw e (
        Parses-pure t (
          rw append-nil (
            subst (λ z. Enc str_bytes IsText t (be32 (length z % 2 ^ 32) ++ z)) (sym same)
              (refl, (scalars, subst (λ z. IsU32 (length z)) same v)))))
]

pub Parses-str : Parses str (Enc str_bytes IsText)
unfolding str
Parses-str = Parses-bind bytes (λ b. checked (from_utf8 b)) Parses-bytes Parses-checked

-- What the loop appends to `v`.
abbrev pub Pushed :
    {A : Type 0} → (List A → Bytes) → (A → Type 0) → ℕ → List A → List A → Bytes → Type 0
Pushed e V n v r xs = (ts : _) × (r ≡ v ++ ts) × (xs ≡ e ts) × All V ts × (length ts ≡ n)

pub Parses-strs_loop :
    (n : ℕ) (v : List Text) → Parses (strs_loop n v) (Pushed each_bytes IsText n v)
unfolding strs_loop each_bytes
Parses-strs_loop zero v = Parses-pure v ([], sym (append-nil v), refl, tt, refl)
Parses-strs_loop (suc n) v =
    Parses-bind str (λ s. strs_loop n (v ++ s ∷ [])) Parses-str
      (λ s h.
        Parses-weaken (strs_loop n (v ++ s ∷ [])) (Parses-strs_loop n (v ++ s ∷ [])) (λ r xs p. (
          s ∷ p.0,
          p.1 ∙ append_assoc v (s ∷ []) p.0,
          ap (λ z. str_bytes s ++ z) p.2,
          (h, p.3),
          ap suc p.4,
        )))

pub Parses-strs : Parses strs (Enc strs_bytes IsTexts)
unfolding strs strs_bytes
Parses-strs =
    Parses-bind len (λ n. strs_loop n []) Parses-u32
      (λ n v. Parses-weaken (strs_loop n []) (Parses-strs_loop n []) (λ r xs p.
        let count : length r ≡ n = ap length p.1 ∙ p.4 in
        let e : length r % 2 ^ 32 ≡ n = omega arith in
        (
          rw e (ap (λ z. be32 n ++ z) (p.2 ∙ ap each_bytes (sym p.1))),
          (subst (All IsText) (sym p.1) p.3, omega arith),
        )))

pub Parses-settings_loop :
    (n : ℕ) (v : List (ℕ × ℕ)) → Parses (settings_loop n v) (Pushed settings_bytes IsSetting n v)
unfolding settings_loop settings_bytes
Parses-settings_loop zero v = Parses-pure v ([], sym (append-nil v), refl, tt, refl)
Parses-settings_loop (suc n) v = Parses-bind u16 _ Parses-u16 (λ id h.
    Parses-bind u32 (λ val. settings_loop n (v ++ (id, val) ∷ [])) Parses-u32
      (λ val k.
        Parses-weaken (settings_loop n (v ++ (id, val) ∷ []))
          (Parses-settings_loop n (v ++ (id, val) ∷ []))
          (λ r xs p. (
            (id, val) ∷ p.0,
            p.1 ∙ append_assoc v ((id, val) ∷ []) p.0,
            ap (λ z. be16 id ++ (be32 val ++ z)) p.2
                ∙ sym (append_assoc (be16 id) (be32 val) (settings_bytes p.0)),
            ((h, k), p.3),
            ap suc p.4,
          ))))
