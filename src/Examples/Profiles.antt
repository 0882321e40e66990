-- ===== src/Examples/Profiles.antt =====
-- Examples for the TLS profile, the frames and the statement of enclave/src.
use proof_of_observation.Base.{
  ◌<◌, ◌≡◌, refl, none, some, [], ◌∷◌, ◌++◌, arith, Bytes, All, IsByte, length, inl, Bool, true,
  not, ◌&&◌, ◌==◌, ltb, ok, err,
}
use proof_of_observation.Text.{Text, lit, to_ascii_lowercase, to_ascii_uppercase}
use proof_of_observation.Text.Utf8.{as_bytes, encode_char}
use proof_of_observation.Words.{be16, be32, be64}
use proof_of_observation.Profile.{
  boring, tls13, enabled, permute_per_session, webpki_roots, H2Settings, TlsProfile, IsProfile,
}
use proof_of_observation.Profile.Encode.{
  canonical_encode, put_h2, put_strs, put_each, put_str, put_bytes, put_len, put_settings,
}
use proof_of_observation.Profile.Decode.{decode, trailing}
use proof_of_observation.Profile.RoundTrip.{decode-canonical_encode, decode_trailing}
use proof_of_observation.Profile.Canonical.{canonical_encode-decode}
use proof_of_observation.Wire.{read_frame, write_frame, read_frame-write_frame}
use proof_of_observation.Hash.{hex-injective}
use proof_of_observation.Statement.{Exchange, path_no_query, build_v2_statement}
use proof_of_observation.Statement.Lines.{IsLine, build_v2_statement-Agree, Agree, IsExchange}

abbrev small_h2 : H2Settings
small_h2 = record {
  settings = (1, 65536) ∷ [];
  window_update = 15663105;
  pseudo_header_order = lit "m" ∷ [];
}

abbrev small_profile : TlsProfile
small_profile = record {
  spec_id = 7;
  issued_at = 1700000000;
  label = lit "x";
  stack = boring;
  cipher_list = [];
  sigalgs = [];
  groups = lit "P" ∷ [];
  alpn = [];
  grease = enabled;
  ext_order = permute_per_session;
  min_negotiated = tls13;
  cert_policy = webpki_roots;
  h2 = some small_h2;
}

abbrev small_bytes : Bytes
small_bytes = canonical_encode small_profile

abbrev in_range : Bytes → Bool
in_range [] = true
in_range (x ∷ b) = ltb x 256 && in_range b

in_range-IsByte : (b : Bytes) → in_range b ≡ true → All IsByte b
in_range-IsByte [] h = tt
in_range-IsByte (x ∷ b) h = (ground arith, in_range-IsByte b (ground arith))

small_bytes-IsByte : All IsByte small_bytes
unfolding canonical_encode put_h2 put_strs put_each put_str put_bytes put_len put_settings be32 be64
    as_bytes encode_char be16
small_bytes-IsByte = in_range-IsByte small_bytes refl

small_profile-IsProfile : IsProfile small_profile
unfolding as_bytes encode_char
small_profile-IsProfile = record {
  spec_id = omega arith;
  issued_at = omega arith;
  label = ((inl (omega arith), tt), omega arith);
  cipher_list = (tt, omega arith);
  sigalgs = (tt, omega arith);
  groups = ((((inl (omega arith), tt), omega arith), tt), omega arith);
  alpn = (tt, omega arith);
  h2 = record {
    settings = (((omega arith, omega arith), tt), omega arith);
    window_update = omega arith;
    pseudo_header_order = ((((inl (omega arith), tt), omega arith), tt), omega arith);
  };
}

small_bytes-length : length small_bytes < 1000
unfolding canonical_encode put_h2 put_strs put_each put_str put_bytes put_len put_settings be32 be64
    as_bytes encode_char be16
small_bytes-length = omega arith

small_runs : decode small_bytes ≡ ok small_profile
small_runs =
    decode-canonical_encode small_profile small_profile-IsProfile
      (omega (arith, small_bytes-length))

decode-canonical_encode_example : decode small_bytes ≡ ok small_profile
decode-canonical_encode_example =
    decode-canonical_encode small_profile small_profile-IsProfile
      (omega (arith, small_bytes-length))

decode_trailing_example : decode (small_bytes ++ (0 ∷ [])) ≡ err trailing
decode_trailing_example =
    decode_trailing small_profile 0 [] small_profile-IsProfile (omega (arith, small_bytes-length))

canonical_encode-decode_example :
    (canonical_encode small_profile ≡ small_bytes) × IsProfile small_profile
canonical_encode-decode_example =
    canonical_encode-decode small_bytes small_profile small_bytes-IsByte small_runs

read_frame-write_frame_example :
    read_frame 16 (write_frame [] 0x11 (104 ∷ 105 ∷ []) ++ (1 ∷ []))
    ≡ ok ((0x11, 104 ∷ 105 ∷ []), 1 ∷ [])
read_frame-write_frame_example =
    read_frame-write_frame 16 0x11 (104 ∷ 105 ∷ []) (1 ∷ []) (omega arith) (omega arith)

abbrev two_bytes : Bytes
two_bytes = 10 ∷ 255 ∷ []

hex-injective_example : two_bytes ≡ 10 ∷ 255 ∷ []
hex-injective_example =
    hex-injective two_bytes (10 ∷ 255 ∷ []) (omega arith, (omega arith, tt))
      (omega arith, (omega arith, tt)) refl

-- Two requests that differ only in the query and in the case of the host.
abbrev exchange : Text → Text → Exchange
exchange host path = record {
  nonce_b64 = lit "AA==";
  upstream_host = host;
  upstream_path = path;
  http_method = lit "POST";
  http_status = 200;
  resp_content_type = lit "a/b";
  request_body_sha256_hex = lit "00";
  response_body_sha256_hex = lit "ff";
  claims_sha256_hex = none;
}

abbrev one : Exchange
one = exchange (lit "A.b") (lit "/v1?x=1")

abbrev other : Exchange
other = exchange (lit "a.B") (lit "/v1")

abbrev line_text : Text → Bool
line_text [] = true
line_text (c ∷ t) = (ltb c 0x80 && not (c == 10)) && line_text t

line_text-IsLine : (t : Text) → line_text t ≡ true → IsLine t
line_text-IsLine [] h = tt
line_text-IsLine (c ∷ t) h = ((inl (ground arith), ground arith), line_text-IsLine t (ground arith))

exchange-IsExchange :
    (host path : Text)
    → line_text (to_ascii_lowercase host) ≡ true
    → line_text (path_no_query path) ≡ true
    → IsExchange to_ascii_lowercase to_ascii_uppercase (exchange host path)
unfolding to_ascii_uppercase
exchange-IsExchange host path h p = record {
  nonce = line_text-IsLine (lit "AA==") refl;
  host = line_text-IsLine (to_ascii_lowercase host) h;
  path = line_text-IsLine (path_no_query path) p;
  method = line_text-IsLine (lit "POST") refl;
  status = omega arith;
  content_type = line_text-IsLine (lit "a/b") refl;
  request = line_text-IsLine (lit "00") refl;
  response = line_text-IsLine (lit "ff") refl;
  claims = tt;
}

same_statement :
    build_v2_statement to_ascii_lowercase to_ascii_uppercase one
    ≡ build_v2_statement to_ascii_lowercase to_ascii_uppercase other
unfolding build_v2_statement to_ascii_lowercase path_no_query
same_statement = refl

one-IsExchange : IsExchange to_ascii_lowercase to_ascii_uppercase one
unfolding to_ascii_lowercase path_no_query
one-IsExchange = exchange-IsExchange (lit "A.b") (lit "/v1?x=1") refl refl

other-IsExchange : IsExchange to_ascii_lowercase to_ascii_uppercase other
unfolding to_ascii_lowercase path_no_query
other-IsExchange = exchange-IsExchange (lit "a.B") (lit "/v1") refl refl

build_v2_statement-Agree_example : Agree to_ascii_lowercase to_ascii_uppercase one other
build_v2_statement-Agree_example =
    build_v2_statement-Agree to_ascii_lowercase to_ascii_uppercase one other one-IsExchange
      other-IsExchange same_statement
