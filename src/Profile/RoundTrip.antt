-- ===== src/Profile/RoundTrip.antt =====
-- Decoding reads back every profile that the types can hold.
use proof_of_observation.Base.{
  ℕ, ◌+◌, ◌%◌, ◌^◌, ◌<◌, ◌≡◌, refl, ap, ◌∙◌, Option, none, some, List, [], ◌∷◌, ◌++◌, append_assoc,
  append-nil, arith, Bytes, All, length, length-append, subst, take-length_append,
  drop-length_append, ok, err,
}
use proof_of_observation.Words.{be16, be32, be64, big_endian}
use proof_of_observation.Text.{Text}
use proof_of_observation.Text.Utf8.{as_bytes, from_utf8}
use proof_of_observation.Text.Utf8.RoundTrip.{from_utf8-as_bytes}
use proof_of_observation.Profile.{
  Stack, rustls, boring, open_ssl, rustls_aws_lc, TlsVersion, tls12, tls13, GreasePolicy, disabled,
  enabled, ExtOrder, fixed, permute_per_session, CertPolicy, webpki_roots, H2Settings, TlsProfile,
  IsU16, IsU32, IsU64, IsText, IsTexts, IsSetting, IsH2, IsOptionH2, IsProfile,
}
use proof_of_observation.Profile.Encode.{
  str_bytes, each_bytes, strs_bytes, settings_bytes, h2_body, h2_bytes, layout, stack_tag,
  grease_tag, ext_order_tag, tls_version_tag, cert_policy_tag, canonical_encode,
  canonical_encode-layout,
}
use proof_of_observation.Profile.Decode.{
  DecodeError, trailing, Decoder, Reader, ◌>>=◌, pure, take_bytes, word, u8, u16, u32, u64, len,
  bytes, checked, str, strs_loop, strs, settings_loop, stack_of, grease_of, ext_order_of,
  tls_version_of, cert_policy_of, h2_settings, h2_of, at_end, fields, profile, value, decode,
}

-- The cursor behind `pre`, before `rest`.
abbrev at : Bytes → Bytes → Decoder
at pre rest = record { b = pre ++ rest; i = length pre }

-- `m` takes `xs` for `a`, whatever stands before it and behind it.
record Reads {A : Type 0} (m : Reader A) (xs : Bytes) (a : A) : Type 0 where
  run :
      (pre post : Bytes)
      → length pre + length xs + length post < 2 ^ 64
      → m (at pre (xs ++ post)) ≡ ok (a, at (pre ++ xs) post)

Reads-pure : {A : Type 0} (a : A) → Reads (pure a) [] a
unfolding pure
Reads-pure a = record { run = λ pre post h. rw append-nil refl }

bind-ok :
    {A B : Type 0} (m : Reader A) (f : A → Reader B) {d d' : Decoder} {a : A}
    → m d ≡ ok (a, d')
    → (m >>= f) d ≡ f a d'
unfolding ◌>>=◌
bind-ok m f e = rw (e, ◌>>=◌)

bind-err :
    {A B : Type 0} (m : Reader A) (f : A → Reader B) {d : Decoder} {e : DecodeError}
    → m d ≡ err e
    → (m >>= f) d ≡ err e
unfolding ◌>>=◌
bind-err m f h = rw (h, ◌>>=◌)

Reads-bind :
    {A B : Type 0} (m : Reader A) (f : A → Reader B) {xs ys : Bytes} {a : A} {b : B}
    → Reads m xs a
    → Reads (f a) ys b
    → Reads (m >>= f) (xs ++ ys) b
Reads-bind m f {xs} {ys} {a} {b} rm rf = record {
  run = λ pre post h.
      ap (λ s. (m >>= f) (at pre s)) (append_assoc xs ys post)
      ∙ bind-ok m f
          (rm.run pre (ys ++ post) (omega (arith, length-append ys post, length-append xs ys)))
      ∙ rf.run (pre ++ xs) post (omega (arith, length-append pre xs, length-append xs ys))
      ∙ ap (λ s. ok (b, at s post)) (append_assoc pre xs ys);
}

Reads-take_bytes : (xs : Bytes) → Reads (take_bytes (length xs)) xs xs
unfolding take_bytes
Reads-take_bytes xs = record {
  run = λ pre post h. ground (
    arith,
    length-append pre (xs ++ post),
    length-append xs post,
    length-append pre xs,
    drop-length_append pre (xs ++ post),
    take-length_append xs post,
    append_assoc pre xs post,
  );
}

-- A step behind the last byte.
Reads-bind_end :
    {A B : Type 0} (m : Reader A) (f : A → Reader B) {xs : Bytes} {a : A} {b : B}
    → Reads m xs a
    → Reads (f a) [] b
    → Reads (m >>= f) xs b
Reads-bind_end m f {xs} {a} {b} r e =
    subst (λ ys. Reads (m >>= f) ys b) (append-nil xs) (Reads-bind m f r e)

Reads-map :
    {A B : Type 0} (m : Reader A) (g : A → B) {xs : Bytes} {a : A} {b : B}
    → Reads m xs a
    → g a ≡ b
    → Reads (do x ← m; pure (g x)) xs b
Reads-map m g {a} r e =
    Reads-bind_end m (λ x. pure (g x)) r (subst (λ y. Reads (pure (g a)) [] y) e (Reads-pure (g a)))

Reads-u8 : (v : ℕ) → Reads u8 (v ∷ []) v
unfolding word
Reads-u8 v = Reads-map (take_bytes 1) (big_endian 0) (Reads-take_bytes (v ∷ [])) (omega arith)

Reads-u16 : (v : ℕ) → IsU16 v → Reads u16 (be16 v) v
unfolding word be16
Reads-u16 v h = Reads-map (take_bytes 2) (big_endian 0) (Reads-take_bytes (be16 v)) (omega arith)

Reads-u32 : (v : ℕ) → IsU32 v → Reads u32 (be32 v) v
unfolding word be32
Reads-u32 v h = Reads-map (take_bytes 4) (big_endian 0) (Reads-take_bytes (be32 v)) (omega arith)

Reads-u64 : (v : ℕ) → IsU64 v → Reads u64 (be64 v) v
unfolding word be64
Reads-u64 v h = Reads-map (take_bytes 8) (big_endian 0) (Reads-take_bytes (be64 v)) (omega arith)

-- A length that fits is written as it is.
Reads-len : (n : ℕ) → IsU32 n → Reads len (be32 (n % 2 ^ 32)) n
Reads-len n h = let e : n % 2 ^ 32 ≡ n = omega arith in rw e (Reads-u32 n h)

Reads-str : (t : Text) → IsText t → Reads str (str_bytes t) t
unfolding str str_bytes
Reads-str t h =
    Reads-bind_end bytes (λ b. checked (from_utf8 b))
      (Reads-bind len take_bytes (Reads-len _ h.1) (Reads-take_bytes (as_bytes t)))
      (rw (from_utf8-as_bytes t h.0) (unfold checked in Reads-pure t))

Reads-strs_loop :
    (ts v : List Text) → All IsText ts → Reads (strs_loop (length ts) v) (each_bytes ts) (v ++ ts)
unfolding strs_loop each_bytes
Reads-strs_loop [] v h = rw append-nil (Reads-pure v)
Reads-strs_loop (t ∷ ts) v h =
    Reads-bind str (λ s. strs_loop (length ts) (v ++ s ∷ [])) (Reads-str t h.0)
      (subst (λ r. Reads (strs_loop (length ts) (v ++ t ∷ [])) (each_bytes ts) r)
        (append_assoc v (t ∷ []) ts) (Reads-strs_loop ts (v ++ t ∷ []) h.1))

Reads-strs : (ts : List Text) → IsTexts ts → Reads strs (strs_bytes ts) ts
unfolding strs strs_bytes
Reads-strs ts h = Reads-bind len (λ n. strs_loop n []) (Reads-len _ h.1) (Reads-strs_loop ts [] h.0)

Reads-settings_loop :
    (ps v : List (ℕ × ℕ))
    → All IsSetting ps
    → Reads (settings_loop (length ps) v) (settings_bytes ps) (v ++ ps)
unfolding settings_loop settings_bytes
Reads-settings_loop [] v h = rw append-nil (Reads-pure v)
Reads-settings_loop (p ∷ ps) v h = rw append_assoc (
    Reads-bind u16 _ (Reads-u16 p.0 h.0.0) (
      Reads-bind u32 (λ val. settings_loop (length ps) (v ++ (p.0, val) ∷ [])) (Reads-u32 p.1 h.0.1)
        (subst (λ r. Reads (settings_loop (length ps) (v ++ p ∷ [])) (settings_bytes ps) r)
          (append_assoc v (p ∷ []) ps) (Reads-settings_loop ps (v ++ p ∷ []) h.1))))

-- Each tag is read back as its value.
Reads-stack_of : (s : Stack) → Reads (stack_of (stack_tag s)) [] s
unfolding stack_of
Reads-stack_of rustls = Reads-pure rustls
Reads-stack_of boring = Reads-pure boring
Reads-stack_of open_ssl = Reads-pure open_ssl
Reads-stack_of rustls_aws_lc = Reads-pure rustls_aws_lc

Reads-grease_of : (s : GreasePolicy) → Reads (grease_of (grease_tag s)) [] s
unfolding grease_of
Reads-grease_of disabled = Reads-pure disabled
Reads-grease_of enabled = Reads-pure enabled

Reads-ext_order_of : (s : ExtOrder) → Reads (ext_order_of (ext_order_tag s)) [] s
unfolding ext_order_of
Reads-ext_order_of fixed = Reads-pure fixed
Reads-ext_order_of permute_per_session = Reads-pure permute_per_session

Reads-tls_version_of : (s : TlsVersion) → Reads (tls_version_of (tls_version_tag s)) [] s
unfolding tls_version_of
Reads-tls_version_of tls12 = Reads-pure tls12
Reads-tls_version_of tls13 = Reads-pure tls13

Reads-cert_policy_of : (s : CertPolicy) → Reads (cert_policy_of (cert_policy_tag s)) [] s
unfolding cert_policy_of
Reads-cert_policy_of webpki_roots = Reads-pure webpki_roots

Reads-h2_settings : (h : H2Settings) → IsH2 h → Reads h2_settings (h2_body h) h
unfolding h2_settings h2_body
Reads-h2_settings h v = Reads-bind len _ (Reads-len _ v.settings.1) (
    Reads-bind (settings_loop (length h.settings) []) _
      (Reads-settings_loop h.settings [] v.settings.0)
      (Reads-bind u32 _ (Reads-u32 _ v.window_update)
        (Reads-map strs _ (Reads-strs _ v.pseudo_header_order) refl)))

-- A tag byte, then what the tag selects.
Reads-tagged :
    {A B : Type 0} (of : ℕ → Reader A) (f : A → Reader B) (tag : ℕ) {ys : Bytes} {a : A} {b : B}
    → Reads (of tag) [] a
    → Reads (f a) ys b
    → Reads (do t ← u8; x ← of t; f x) (tag ∷ ys) b
Reads-tagged of f tag ra rb =
    Reads-bind u8 (λ t. of t >>= f) (Reads-u8 tag) (Reads-bind (of tag) f ra rb)

Reads-h2_of-some : (h : H2Settings) → IsH2 h → Reads (h2_of 1) (h2_body h) (some h)
unfolding h2_of
Reads-h2_of-some h v = Reads-map h2_settings some (Reads-h2_settings h v) refl

Reads-h2_of-none : Reads (h2_of 0) [] none
unfolding h2_of
Reads-h2_of-none = Reads-pure none

Reads-h2_last :
    {B : Type 0} (f : Option H2Settings → B) (h : Option H2Settings)
    → IsOptionH2 h
    → Reads (do t ← u8; x ← h2_of t; pure (f x)) (h2_bytes h) (f h)
unfolding h2_bytes
Reads-h2_last f none v =
    Reads-tagged h2_of (λ x. pure (f x)) 0 Reads-h2_of-none (Reads-pure (f none))
Reads-h2_last f (some h) v =
    Reads-bind u8 (λ t. do x ← h2_of t; pure (f x)) (Reads-u8 1)
      (Reads-map (h2_of 1) f (Reads-h2_of-some h v) refl)

Reads-fields : (s : TlsProfile) → IsProfile s → Reads fields (layout s) s
unfolding fields layout
Reads-fields s v = Reads-bind u32 _ (Reads-u32 _ v.spec_id) (
    Reads-bind u64 _ (Reads-u64 _ v.issued_at) (
      Reads-bind str _ (Reads-str _ v.label) (
        Reads-tagged stack_of _ _ (Reads-stack_of s.stack) (
          Reads-bind str _ (Reads-str _ v.cipher_list) (
            Reads-bind strs _ (Reads-strs _ v.sigalgs) (
              Reads-bind strs _ (Reads-strs _ v.groups) (
                Reads-bind strs _ (Reads-strs _ v.alpn) (
                  Reads-tagged grease_of _ _ (Reads-grease_of s.grease) (
                    Reads-tagged ext_order_of _ _ (Reads-ext_order_of s.ext_order) (
                      Reads-tagged tls_version_of _ _ (Reads-tls_version_of s.min_negotiated) (
                        Reads-tagged cert_policy_of _ _ (Reads-cert_policy_of s.cert_policy)
                          (Reads-h2_last _ s.h2 v.h2))))))))))))

-- The end check passes where the cursor has reached the end.
at_end_lem : (pre : Bytes) → at_end (at pre []) ≡ ok (tt, at pre [])
unfolding at_end
at_end_lem pre = ground (arith, append-nil pre)

decode-layout :
    (s : TlsProfile) → IsProfile s → length (layout s) < 2 ^ 64 → decode (layout s) ≡ ok s
unfolding decode profile pure
decode-layout s v fits =
    let xs = layout s in
    let run = (Reads-fields s v).run [] [] (omega arith) in
    let from_start =
      subst (λ z. fields (record { b = z; i = 0 }) ≡ ok (s, at xs [])) (append-nil xs) run in
    ap value (
      bind-ok fields (λ p. do _ ← at_end; pure p) from_start
      ∙ bind-ok at_end (λ _. pure s) (at_end_lem xs))

-- Decoding the encoding of a profile gives the profile back, for every profile whose words and
-- texts are in range, whose lists and texts are shorter than 2^32, and whose encoding is shorter
-- than 2^64 bytes.
pub decode-canonical_encode :
    (s : TlsProfile)
    → IsProfile s
    → length (canonical_encode s) < 2 ^ 64
    → decode (canonical_encode s) ≡ ok s
decode-canonical_encode s v fits =
    let e = canonical_encode-layout s in rw e (decode-layout s v (rw e at fits))

at_end_trailing : (pre : Bytes) (x : ℕ) (more : Bytes) → at_end (at pre (x ∷ more)) ≡ err trailing
unfolding at_end
at_end_trailing pre x more = ground (arith, length-append pre (x ∷ more))

-- Bytes behind the encoding of a profile are refused as trailing, whatever they are.
pub decode_trailing :
    (s : TlsProfile) (x : ℕ) (more : Bytes)
    → IsProfile s
    → length (canonical_encode s) + length (x ∷ more) < 2 ^ 64
    → decode (canonical_encode s ++ (x ∷ more)) ≡ err trailing
decode_trailing s x more v fits =
    let e = canonical_encode-layout s in
    rw e (
      unfold decode profile in
      ap value (
        bind-ok fields (λ p. do _ ← at_end; pure p)
          ((Reads-fields s v).run [] (x ∷ more) (omega (arith, ap length e)))
        ∙ bind-err at_end (λ _. pure s) (at_end_trailing (layout s) x more)))
