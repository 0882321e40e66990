-- ===== src/Hash.antt =====
-- `hex` and `sha256_hex` of enclave/src/main.rs. The digest itself is the parameter `sha256`.
use proof_of_observation.Base.{
  ℕ, ◌+◌, ◌-◌, ◌/◌, ◌%◌, ◌<◌, ◌≡◌, refl, [], ◌∷◌, Bytes, IsByte, All, ltb, arith, if◌then◌else◌,
}
use proof_of_observation.Text.{Text, lit}
use proof_of_observation.Json.{Libs}

-- A digit of `{:02x}`.
unfoldable pub hex_digit : ℕ → ℕ
hex_digit d = if ltb d 10 then b'0' + d else b'a' + (d - 10)

unfoldable pub hex : Bytes → Text
unfolding hex_digit
hex [] = []
hex (x ∷ b) = hex_digit (x / 16) ∷ hex_digit (x % 16) ∷ hex b

abbrev pub sha256_hex : Libs → Bytes → Text
sha256_hex libs b = hex (libs.sha256 b)

hex_digit-injective : (a b : ℕ) → a < 16 → b < 16 → hex_digit a ≡ hex_digit b → a ≡ b
unfolding hex_digit
hex_digit-injective a b ha hb h = ground arith

-- Different byte strings have different hexadecimal texts.
pub hex-injective : (a b : Bytes) → All IsByte a → All IsByte b → hex a ≡ hex b → a ≡ b
unfolding hex
hex-injective [] [] ha hb h = refl
hex-injective [] (y ∷ b) ha hb h = cc
hex-injective (x ∷ a) [] ha hb h = cc
hex-injective (x ∷ a) (y ∷ b) ha hb h = ground (
  arith,
  hex_digit-injective (x / 16) (y / 16),
  hex_digit-injective (x % 16) (y % 16),
  hex-injective a b,
)

hex_runs : hex (0x0a ∷ 0xff ∷ []) ≡ lit "0aff"
unfolding hex
hex_runs = refl
