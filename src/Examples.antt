-- ===== src/Examples.antt =====
-- Concrete runs of the models of enclave/src, and values that the children's examples share.
mod Profiles
mod Streams
mod Values
mod Pools
mod Exchanges
mod Handlers
use proof_of_observation.Base.{ℕ, Bool, Option, some, List, [], ◌∷◌, ◌++◌, Bytes, ℤ, pos, negsuc}
use proof_of_observation.Text.{Text, lit}
use proof_of_observation.Json.{Value, string, Libs}

abbrev pos_part : ℤ → ℕ
pos_part (pos n) = n
pos_part (negsuc n) = 0

-- Stand-ins for what the code calls of `serde_json` and `sha2`.
abbrev pub plain_libs : Libs
plain_libs = record {
  Number = ℕ;
  as_u64 = λ n. some n;
  number_to_string = λ n. lit "0";
  as_i64 = λ n. some (pos n);
  number_of = pos_part;
  quote = λ t. lit "'" ++ (t ++ lit "'");
  from_str = λ t. some (string t);
  sha256 = λ b. b;
}

-- A caller that keeps the events.
abbrev pub keep_event : List (Value ℕ) → Value ℕ → List (Value ℕ)
keep_event events v = v ∷ events
