-- ===== src/Words.antt =====
-- Machine words as bytes, most significant first: `to_be_bytes` and `from_be_bytes` of the standard
-- library, which enclave/src/tls_profile.rs and the frames of enclave/src/main.rs use.
use proof_of_observation.Base.{ℕ, ◌+◌, ◌*◌, ◌/◌, ◌%◌, ◌^◌, ◌<◌, ◌≡◌, [], ◌∷◌, arith, Bytes}

-- `to_be_bytes` of u16, u32 and u64
unfoldable pub be16 : ℕ → Bytes
be16 v = (v / 2 ^ 8 % 256) ∷ (v % 256) ∷ []

unfoldable pub be32 : ℕ → Bytes
be32 v = (v / 2 ^ 24 % 256) ∷ (v / 2 ^ 16 % 256) ∷ (v / 2 ^ 8 % 256) ∷ (v % 256) ∷ []

unfoldable pub be64 : ℕ → Bytes
be64 v =
    (v / 2 ^ 56 % 256)
    ∷ (v / 2 ^ 48 % 256)
    ∷ (v / 2 ^ 40 % 256)
    ∷ (v / 2 ^ 32 % 256)
    ∷ (v / 2 ^ 24 % 256)
    ∷ (v / 2 ^ 16 % 256)
    ∷ (v / 2 ^ 8 % 256)
    ∷ (v % 256)
    ∷ []

-- `from_be_bytes`: the number that the bytes stand for, behind `acc`.
abbrev pub big_endian : ℕ → Bytes → ℕ
big_endian acc [] = acc
big_endian acc (x ∷ xs) = big_endian (acc * 256 + x) xs

pub big_endian-be32 : (v : ℕ) → v < 2 ^ 32 → big_endian 0 (be32 v) ≡ v
unfolding be32
big_endian-be32 v h = omega arith
