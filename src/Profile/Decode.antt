-- ===== src/Profile/Decode.antt =====
-- `Dec` and `decode` of enclave/src/tls_profile.rs: a cursor into a byte string, and readers that
-- move it or fail.
use Prim.Native.String.{String}
use proof_of_observation.Base.{
  ℕ, zero, suc, ◌+◌, ◌^◌, Option, none, some, List, [], ◌∷◌, ◌++◌, Bytes, length, take, drop, ltb,
  leb, ◌==◌, if◌then◌else◌, Result, ok, err,
}
use proof_of_observation.Words.{big_endian}
use proof_of_observation.Text.{Text}
use proof_of_observation.Text.Utf8.{from_utf8}
use proof_of_observation.Profile.{
  Stack, rustls, boring, open_ssl, rustls_aws_lc, TlsVersion, tls12, tls13, GreasePolicy, disabled,
  enabled, ExtOrder, fixed, permute_per_session, CertPolicy, webpki_roots, H2Settings, TlsProfile,
}

pub data DecodeError : Type 0 where
  eof utf8 trailing : DecodeError
  bad_tag : String → DecodeError

-- `struct Dec`: the input and the position of the next byte.
pub record Decoder : Type 0 where
  pub b : Bytes
  pub i : ℕ

-- A reader: `&mut self` with an early return on error.
abbrev pub Reader : Type 0 → Type 0
Reader A = Decoder → Result DecodeError (A × Decoder)

infixl 5 ◌>>=◌
unfoldable pub ◌>>=◌ : {A B : Type 0} → Reader A → (A → Reader B) → Reader B
◌>>=◌ m f d = elim (m d) [ ok (a, d') ↦ f a d' | err e ↦ err e ]

unfoldable pub pure : {A : Type 0} → A → Reader A
pure a d = ok (a, d)

unfoldable pub fail : {A : Type 0} → DecodeError → Reader A
fail e d = err e

-- `take`: `checked_add` fails at the end of `usize`.
unfoldable pub take_bytes : ℕ → Reader Bytes
take_bytes n d =
    let end = d.i + n in
    if leb (2 ^ 64) end
    then err eof
    else if ltb (length d.b) end
    then err eof
    else ok (take n (drop d.i d.b), record d { i = end })

unfoldable pub word : ℕ → Reader ℕ
word n = do s ← take_bytes n; pure (big_endian 0 s)

abbrev pub u8 : Reader ℕ
u8 = word 1

abbrev pub u16 : Reader ℕ
u16 = word 2

abbrev pub u32 : Reader ℕ
u32 = word 4

abbrev pub u64 : Reader ℕ
u64 = word 8

abbrev pub len : Reader ℕ
len = u32

abbrev pub bytes : Reader Bytes
bytes = do n ← len; take_bytes n

unfoldable pub checked : Option Text → Reader Text
checked none = fail utf8
checked (some t) = pure t

unfoldable pub str : Reader Text
str = do b ← bytes; checked (from_utf8 b)

-- The loops push onto `v`.
unfoldable pub strs_loop : ℕ → List Text → Reader (List Text)
strs_loop zero v = pure v
strs_loop (suc n) v = do s ← str; strs_loop n (v ++ s ∷ [])

unfoldable pub strs : Reader (List Text)
strs = do n ← len; strs_loop n []

unfoldable pub settings_loop : ℕ → List (ℕ × ℕ) → Reader (List (ℕ × ℕ))
settings_loop zero v = pure v
settings_loop (suc n) v = do id ← u16; val ← u32; settings_loop n (v ++ (id, val) ∷ [])

unfoldable pub stack_of : ℕ → Reader Stack
stack_of t =
    if t == 0
    then pure rustls
    else if t == 1
    then pure boring
    else if t == 2
    then pure open_ssl
    else if t == 3
    then pure rustls_aws_lc
    else fail (bad_tag "stack")

unfoldable pub grease_of : ℕ → Reader GreasePolicy
grease_of t =
    if t == 0 then pure disabled else if t == 1 then pure enabled else fail (bad_tag "grease")

unfoldable pub ext_order_of : ℕ → Reader ExtOrder
ext_order_of t =
    if t == 0
    then pure fixed
    else if t == 1
    then pure permute_per_session
    else fail (bad_tag "ext_order")

unfoldable pub tls_version_of : ℕ → Reader TlsVersion
tls_version_of t =
    if t == 0 then pure tls12 else if t == 1 then pure tls13 else fail (bad_tag "tls_version")

unfoldable pub cert_policy_of : ℕ → Reader CertPolicy
cert_policy_of t = if t == 0 then pure webpki_roots else fail (bad_tag "cert_policy")

unfoldable pub h2_settings : Reader H2Settings
h2_settings = do
  sn ← len
  settings ← settings_loop sn []
  window_update ← u32
  order ← strs
  pure (record { settings = settings; window_update = window_update; pseudo_header_order = order })

unfoldable pub h2_of : ℕ → Reader (Option H2Settings)
h2_of t =
    if t == 0
    then pure none
    else if t == 1
    then (do h ← h2_settings; pure (some h))
    else fail (bad_tag "h2")

-- `if d.i != d.b.len()`
unfoldable pub at_end : Reader (Unit {0})
at_end d = if d.i == length d.b then ok (tt, d) else err trailing

-- The fields in order, up to the check for trailing bytes.
unfoldable pub fields : Reader TlsProfile
fields = do
  spec_id ← u32
  issued_at ← u64
  label ← str
  stack_byte ← u8
  stack ← stack_of stack_byte
  cipher_list ← str
  sigalgs ← strs
  groups ← strs
  alpn ← strs
  grease_byte ← u8
  grease ← grease_of grease_byte
  order_byte ← u8
  ext_order ← ext_order_of order_byte
  version_byte ← u8
  min_negotiated ← tls_version_of version_byte
  cert_byte ← u8
  cert_policy ← cert_policy_of cert_byte
  h2_byte ← u8
  h2 ← h2_of h2_byte
  pure (record {
    spec_id = spec_id;
    issued_at = issued_at;
    label = label;
    stack = stack;
    cipher_list = cipher_list;
    sigalgs = sigalgs;
    groups = groups;
    alpn = alpn;
    grease = grease;
    ext_order = ext_order;
    min_negotiated = min_negotiated;
    cert_policy = cert_policy;
    h2 = h2;
  })

unfoldable pub profile : Reader TlsProfile
profile = do p ← fields; _ ← at_end; pure p

abbrev pub value : {A : Type 0} → Result DecodeError (A × Decoder) → Result DecodeError A
value (ok (a, d)) = ok a
value (err e) = err e

unfoldable pub decode : Bytes → Result DecodeError TlsProfile
decode b = value (profile (record { b = b; i = 0 }))
