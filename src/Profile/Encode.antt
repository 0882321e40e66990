-- ===== src/Profile/Encode.antt =====
-- `canonical_encode` of enclave/src/tls_profile.rs. Each `put_` appends to the output so far, as
-- the source does; `layout` is the same bytes as one concatenation.
use proof_of_observation.Base.{
  ℕ, ◌%◌, ◌^◌, Option, none, some, List, [], ◌∷◌, ◌++◌, ◌≡◌, refl, append_assoc, append-nil, Bytes,
  length,
}
use proof_of_observation.Words.{be16, be32, be64}
use proof_of_observation.Text.{Text}
use proof_of_observation.Text.Utf8.{as_bytes}
use proof_of_observation.Profile.{
  Stack, rustls, boring, open_ssl, rustls_aws_lc, TlsVersion, tls12, tls13, GreasePolicy, disabled,
  enabled, ExtOrder, fixed, permute_per_session, CertPolicy, webpki_roots, H2Settings, TlsProfile,
}

-- `(n as u32).to_be_bytes()`: the cast wraps.
unfoldable pub put_len : Bytes → ℕ → Bytes
put_len o n = o ++ be32 (n % 2 ^ 32)

unfoldable pub put_bytes : Bytes → Bytes → Bytes
put_bytes o b = put_len o (length b) ++ b

unfoldable pub put_str : Bytes → Text → Bytes
put_str o s = put_bytes o (as_bytes s)

unfoldable pub put_each : Bytes → List Text → Bytes
put_each o [] = o
put_each o (s ∷ v) = put_each (put_str o s) v

unfoldable pub put_strs : Bytes → List Text → Bytes
put_strs o v = put_each (put_len o (length v)) v

abbrev pub stack_tag : Stack → ℕ
stack_tag rustls = 0
stack_tag boring = 1
stack_tag open_ssl = 2
stack_tag rustls_aws_lc = 3

abbrev pub grease_tag : GreasePolicy → ℕ
grease_tag disabled = 0
grease_tag enabled = 1

abbrev pub ext_order_tag : ExtOrder → ℕ
ext_order_tag fixed = 0
ext_order_tag permute_per_session = 1

abbrev pub tls_version_tag : TlsVersion → ℕ
tls_version_tag tls12 = 0
tls_version_tag tls13 = 1

abbrev pub cert_policy_tag : CertPolicy → ℕ
cert_policy_tag webpki_roots = 0

unfoldable pub put_settings : Bytes → List (ℕ × ℕ) → Bytes
put_settings o [] = o
put_settings o ((id, val) ∷ rest) = put_settings ((o ++ be16 id) ++ be32 val) rest

unfoldable pub put_h2 : Bytes → Option H2Settings → Bytes
put_h2 o none = o ++ 0 ∷ []
put_h2 o (some h2) =
    let o₁ = put_len (o ++ 1 ∷ []) (length h2.settings) in
    let o₂ = put_settings o₁ h2.settings in
    put_strs (o₂ ++ be32 h2.window_update) h2.pseudo_header_order

unfoldable pub canonical_encode : TlsProfile → Bytes
canonical_encode s =
    let o₁ = ([] ++ be32 s.spec_id) ++ be64 s.issued_at in
    let o₂ = put_str o₁ s.label ++ stack_tag s.stack ∷ [] in
    let o₃ = put_strs (put_str o₂ s.cipher_list) s.sigalgs in
    let o₄ = put_strs (put_strs o₃ s.groups) s.alpn in
    let o₅ = (o₄ ++ grease_tag s.grease ∷ []) ++ ext_order_tag s.ext_order ∷ [] in
    let o₆ = (o₅ ++ tls_version_tag s.min_negotiated ∷ []) ++ cert_policy_tag s.cert_policy ∷ [] in
    put_h2 o₆ s.h2

-- The layout of each part.
unfoldable pub str_bytes : Text → Bytes
str_bytes s = be32 (length (as_bytes s) % 2 ^ 32) ++ as_bytes s

unfoldable pub each_bytes : List Text → Bytes
each_bytes [] = []
each_bytes (s ∷ v) = str_bytes s ++ each_bytes v

unfoldable pub strs_bytes : List Text → Bytes
strs_bytes v = be32 (length v % 2 ^ 32) ++ each_bytes v

unfoldable pub settings_bytes : List (ℕ × ℕ) → Bytes
settings_bytes [] = []
settings_bytes (p ∷ rest) = (be16 p.0 ++ be32 p.1) ++ settings_bytes rest

unfoldable pub h2_body : H2Settings → Bytes
h2_body h =
    be32 (length h.settings % 2 ^ 32)
    ++ (settings_bytes h.settings ++ (be32 h.window_update ++ strs_bytes h.pseudo_header_order))

unfoldable pub h2_bytes : Option H2Settings → Bytes
h2_bytes none = 0 ∷ []
h2_bytes (some h) = 1 ∷ h2_body h

unfoldable pub layout : TlsProfile → Bytes
layout s =
    be32 s.spec_id
    ++ (be64 s.issued_at
        ++ (str_bytes s.label
            ++ (stack_tag s.stack
                ∷ (str_bytes s.cipher_list
                    ++ (strs_bytes s.sigalgs
                        ++ (strs_bytes s.groups
                            ++ (strs_bytes s.alpn
                                ++ (grease_tag s.grease
                                    ∷ (ext_order_tag s.ext_order
                                        ∷ (tls_version_tag s.min_negotiated
                                            ∷ (cert_policy_tag s.cert_policy
                                                ∷ h2_bytes s.h2)))))))))))

put_str-layout : (o : Bytes) (s : Text) → put_str o s ≡ o ++ str_bytes s
unfolding put_str put_bytes put_len str_bytes
put_str-layout o s = append_assoc o (be32 (length (as_bytes s) % 2 ^ 32)) (as_bytes s)

put_each-layout : (v : List Text) (o : Bytes) → put_each o v ≡ o ++ each_bytes v
unfolding put_each each_bytes
put_each-layout [] o = rw append-nil
put_each-layout (s ∷ v) o = simp (put_each-layout v, put_str-layout, append_assoc)

put_strs-layout : (o : Bytes) (v : List Text) → put_strs o v ≡ o ++ strs_bytes v
unfolding put_strs put_len strs_bytes
put_strs-layout o v = simp (put_each-layout, append_assoc)

put_settings-layout : (v : List (ℕ × ℕ)) (o : Bytes) → put_settings o v ≡ o ++ settings_bytes v
unfolding put_settings settings_bytes
put_settings-layout [] o = rw append-nil
put_settings-layout (p ∷ v) o = simp (put_settings-layout v, append_assoc)

put_h2-layout : (h : Option H2Settings) (o : Bytes) → put_h2 o h ≡ o ++ h2_bytes h
unfolding put_h2 put_len h2_bytes h2_body
put_h2-layout none o = refl
put_h2-layout (some h) o = simp (put_strs-layout, put_settings-layout, append_assoc)

-- The accumulator holds the layout at the end.
pub canonical_encode-layout : (s : TlsProfile) → canonical_encode s ≡ layout s
unfolding canonical_encode layout
canonical_encode-layout s = simp (put_str-layout, put_strs-layout, put_h2-layout, append_assoc)
