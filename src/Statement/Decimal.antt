-- ===== src/Statement/Decimal.antt =====
-- `{}` of a u16 in decimal, as the status line of the statement in enclave/src/main.rs uses it.
use proof_of_observation.Base.{
  ℕ, zero, suc, ◌+◌, ◌-◌, ◌*◌, ◌/◌, ◌%◌, ◌^◌, ◌<◌, ◌≡◌, refl, sym, ap, ◌∙◌, [], ◌∷◌, ◌++◌, arith,
  ltb, if◌then◌else◌,
}
use proof_of_observation.Text.{Text, lit}

-- The digits of `n`, where the fuel exceeds their number.
unfoldable pub digits : ℕ → ℕ → Text
digits zero n = []
digits (suc fuel) n =
    let front = digits fuel (n / 10) in
    if ltb n 10 then (b'0' + n) ∷ [] else front ++ ((b'0' + n % 10) ∷ [])

-- Five digits are enough for a u16.
unfoldable pub decimal : ℕ → Text
unfolding digits
decimal n = digits 5 n

value : ℕ → Text → ℕ
value acc [] = acc
value acc (c ∷ s) = value (acc * 10 + (c - b'0')) s

value-append :
    (acc : ℕ) (s : Text) (c : ℕ) → value acc (s ++ (c ∷ [])) ≡ value acc s * 10 + (c - b'0')
unfolding value
value-append acc [] c = refl
value-append acc (d ∷ s) c = value-append (acc * 10 + (d - b'0')) s c

value-digits : (fuel n : ℕ) → n < 10 ^ fuel → value 0 (digits fuel n) ≡ n
unfolding value digits
value-digits zero n h = omega arith
value-digits (suc fuel) n h =
    ground
      (arith, value-digits fuel (n / 10), value-append 0 (digits fuel (n / 10)) (b'0' + n % 10))

pub decimal-injective : (a b : ℕ) → a < 2 ^ 16 → b < 2 ^ 16 → decimal a ≡ decimal b → a ≡ b
unfolding decimal
decimal-injective a b ha hb h =
    sym (value-digits 5 a (omega arith)) ∙ ap (value 0) h ∙ value-digits 5 b (omega arith)

decimal_runs : decimal 502 ≡ lit "502"
unfolding decimal
decimal_runs = refl
