-- ===== src/Profile.antt =====
-- enclave/src/tls_profile.rs: the outgoing TLS profile and its enums. `Encode` and `Decode` hold
-- the two directions of the wire format.
pub mod Encode
pub mod Decode
pub mod RoundTrip
pub mod Canonical
use proof_of_observation.Base.{ℕ, ◌<◌, ◌^◌, Option, none, some, List, All, length}
use proof_of_observation.Text.{Text}
use proof_of_observation.Text.Utf8.{IsScalar, as_bytes}

pub data Stack : Type 0 where
  rustls boring open_ssl rustls_aws_lc : Stack

pub data TlsVersion : Type 0 where
  tls12 tls13 : TlsVersion

pub data GreasePolicy : Type 0 where
  disabled enabled : GreasePolicy

pub data ExtOrder : Type 0 where
  fixed permute_per_session : ExtOrder

pub data CertPolicy : Type 0 where
  webpki_roots : CertPolicy

pub record H2Settings : Type 0 where
  pub settings : List (ℕ × ℕ)
  pub window_update : ℕ
  pub pseudo_header_order : List Text

pub record TlsProfile : Type 0 where
  pub spec_id : ℕ
  pub issued_at : ℕ
  pub label : Text
  pub stack : Stack
  pub cipher_list : Text
  pub sigalgs : List Text
  pub groups : List Text
  pub alpn : List Text
  pub grease : GreasePolicy
  pub ext_order : ExtOrder
  pub min_negotiated : TlsVersion
  pub cert_policy : CertPolicy
  pub h2 : Option H2Settings

-- The values that Rust's types hold: words in range, texts of scalar values. Lengths are kept
-- below 2^32, where `n as u32` does not wrap.
abbrev pub IsU16 : ℕ → Type 0
IsU16 v = v < 2 ^ 16

abbrev pub IsU32 : ℕ → Type 0
IsU32 v = v < 2 ^ 32

abbrev pub IsU64 : ℕ → Type 0
IsU64 v = v < 2 ^ 64

abbrev pub IsText : Text → Type 0
IsText t = All IsScalar t × IsU32 (length (as_bytes t))

abbrev pub IsTexts : List Text → Type 0
IsTexts ts = All IsText ts × IsU32 (length ts)

abbrev pub IsSetting : ℕ × ℕ → Type 0
IsSetting p = IsU16 p.0 × IsU32 p.1

pub record IsH2 (h : H2Settings) : Type 0 where
  pub settings : All IsSetting h.settings × IsU32 (length h.settings)
  pub window_update : IsU32 h.window_update
  pub pseudo_header_order : IsTexts h.pseudo_header_order

abbrev pub IsOptionH2 : Option H2Settings → Type 0
IsOptionH2 none = Unit
IsOptionH2 (some h) = IsH2 h

pub record IsProfile (p : TlsProfile) : Type 0 where
  pub spec_id : IsU32 p.spec_id
  pub issued_at : IsU64 p.issued_at
  pub label : IsText p.label
  pub cipher_list : IsText p.cipher_list
  pub sigalgs : IsTexts p.sigalgs
  pub groups : IsTexts p.groups
  pub alpn : IsTexts p.alpn
  pub h2 : IsOptionH2 p.h2
