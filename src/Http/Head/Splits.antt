-- ===== src/Http/Head/Splits.antt =====
-- What `read_until_headers` of enclave/src/main.rs returns, and that it returns.
use proof_of_observation.Base.{
  ℕ, zero, suc, ◌+◌, ◌<◌, ◌≡◌, ◌≢◌, refl, sym, ap, ◌∙◌, Bool, true, false, Option, none, some, [],
  ◌∷◌, ◌++◌, append_assoc, arith, Bytes, take, drop, Result, ok, err, subst,
}
use proof_of_observation.Http.Input.{
  Input, Got, size, arrives, ReadView, ended, more, broken, read-view, unexpected_eof,
  connection_aborted, other,
}
use proof_of_observation.Http.Find.{find, crlf_crlf, find-split}
use proof_of_observation.Http.Head.{
  HeadError, out_of_fuel, head_round, head_step, head_loop, read_until_headers, head_buffer,
}

abbrev Outcome : Type 0
Outcome = Result HeadError ((Bytes × Bytes) × Input)

-- The outcome is no lack of fuel, and what it splits is `all`.
pub data Splits (all : Bytes) : Outcome → Type 0 where
  split :
      {head leftover : Bytes} {input : Input}
      → all ≡ head ++ (crlf_crlf ++ (leftover ++ arrives input))
      → Splits all (ok ((head, leftover), input))
  refused : {e : HeadError} → e ≢ out_of_fuel → Splits all (err e)

round-Splits :
    (again : Bytes → Input → Outcome) (fuel : ℕ) (buf : Bytes) (input : Input) {r : Got × Input}
    → ((b : Bytes) (i : Input) → size i < fuel → Splits (b ++ arrives i) (again b i))
    → size input < suc fuel
    → ReadView head_buffer input r
    → Splits (buf ++ arrives input) (head_round again buf r)
unfolding head_round
round-Splits again fuel buf input h small (ended e) = refused (λ z. cc)
round-Splits again fuel buf input h small (more {x} {b} {input'} e room less) =
    subst (λ z. Splits z (again (buf ++ (x ∷ b)) input'))
      (append_assoc buf (x ∷ b) (arrives input') ∙ ap (λ z. buf ++ z) (sym e))
      (h (buf ++ (x ∷ b)) input' (omega arith))
round-Splits again fuel buf input h small (broken {k = unexpected_eof} e) = refused (λ z. cc)
round-Splits again fuel buf input h small (broken {k = connection_aborted} e) = refused (λ z. cc)
round-Splits again fuel buf input h small (broken {k = other} e) = refused (λ z. cc)

found-Splits :
    (buf : Bytes) (input : Input) (pos : ℕ)
    → find buf crlf_crlf ≡ some pos
    → Splits (buf ++ arrives input) (ok ((take pos buf, drop (pos + 4) buf), input))
found-Splits buf input pos e = split (
    ap (λ z. z ++ arrives input) (find-split buf crlf_crlf pos e)
    ∙ append_assoc (take pos buf) (crlf_crlf ++ drop (pos + 4) buf) (arrives input))

step-Splits :
    (again : Bytes → Input → Outcome) (fuel : ℕ) (buf : Bytes) (input : Input) (o : Option ℕ)
    (long : Bool)
    → find buf crlf_crlf ≡ o
    → ((b : Bytes) (i : Input) → size i < fuel → Splits (b ++ arrives i) (again b i))
    → size input < suc fuel
    → Splits (buf ++ arrives input) (head_step again buf input o long)
unfolding head_step
step-Splits again fuel buf input (some pos) long e h small = found-Splits buf input pos e
step-Splits again fuel buf input none true e h small = refused (λ z. cc)
step-Splits again fuel buf input none false e h small =
    round-Splits again fuel buf input h small (read-view head_buffer input (omega arith))

loop-Splits :
    (fuel : ℕ) (buf : Bytes) (input : Input)
    → size input < fuel
    → Splits (buf ++ arrives input) (head_loop fuel buf input)
unfolding head_loop
loop-Splits zero buf input small = absurd (omega arith)
loop-Splits (suc fuel) buf input small =
    step-Splits (head_loop fuel) fuel buf input (find buf crlf_crlf) _ refl
      (λ b i h. loop-Splits fuel b i h) small

-- Whatever arrives, in whatever pieces: `read_until_headers` does not run out of fuel, and a head
-- that it returns, the empty line, the leftover bytes and what still arrives are together all that
-- arrived.
pub read_until_headers-Splits : (input : Input) → Splits (arrives input) (read_until_headers input)
unfolding read_until_headers
read_until_headers-Splits input = loop-Splits (suc (size input)) [] input (omega arith)
