-- ===== src/Http/Request/Lines.antt =====
-- The lines of a request head that enclave/src/main.rs writes: each is a text without a carriage
-- return if its parts are.
use proof_of_observation.Base.{
  ℕ, zero, suc, ◌+◌, ◌%◌, ◌/◌, ltb, ◌≡◌, ◌≢◌, refl, sym, ap, ◌∙◌, Bool, true, false, not, ◌&&◌,
  Option, [], ◌∷◌, ◌++◌, append_assoc, arith, All-append, ◌==◌, if◌then◌else◌,
}
use proof_of_observation.Text.{Text, lit}
use proof_of_observation.Statement.Decimal.{digits}
use proof_of_observation.Http.Headers.Lines.{NoCr}
use proof_of_observation.Http.Request.{header_line, request_line, line_end}

digit-NoCr :
    (b : Bool) (n : ℕ) (front : Text)
    → NoCr front
    → NoCr (if b then (b'0' + n) ∷ [] else front ++ ((b'0' + n % 10) ∷ []))
digit-NoCr true n front h = (λ e. omega arith, tt)
digit-NoCr false n front h = (All-append (λ c. c ≢ 13) front _).1 (h, (λ e. omega arith, tt))

pub digits-NoCr : (fuel n : ℕ) → NoCr (digits fuel n)
unfolding digits
digits-NoCr zero n = tt
digits-NoCr (suc fuel) n =
    digit-NoCr (ltb n 10) n (digits fuel (n / 10)) (digits-NoCr fuel (n / 10))

pub both-NoCr : (a b : Text) → NoCr a → NoCr b → NoCr (a ++ b)
both-NoCr a b h k = (All-append (λ c. c ≢ 13) a b).1 (h, k)

-- `{k}: {v}`
abbrev pub header_text : Text → Text → Text
header_text k v = k ++ (lit ": " ++ v)

pub header_line-header_text :
    (k v rest : Text) → header_line k v ++ rest ≡ header_text k v ++ (line_end ++ rest)
unfolding header_line
header_line-header_text k v rest =
    append_assoc k (lit ": " ++ (v ++ line_end)) rest
    ∙ ap (λ z. k ++ (lit ": " ++ z)) (append_assoc v line_end rest)
    ∙ sym (append_assoc k (lit ": " ++ v) (line_end ++ rest))

pub header_text-NoCr : (k v : Text) → NoCr k → NoCr v → NoCr (header_text k v)
header_text-NoCr k v h w =
    both-NoCr k (lit ": " ++ v) h
      (both-NoCr (lit ": ") v (λ e. omega arith, (λ e. omega arith, tt)) w)

pub and_both : (a b : Bool) → (a && b) ≡ true → (a ≡ true) × (b ≡ true)
and_both true b h = (refl, h)
and_both false b h = cc

-- No carriage return, as a test.
abbrev pub without_cr : Text → Bool
without_cr [] = true
without_cr (c ∷ s) = not (c == 13) && without_cr s

not_test : (c : ℕ) → not (c == 13) ≡ true → c ≢ 13
not_test c h e = ground arith

pub lit-NoCr : (s : Text) → without_cr s ≡ true → NoCr s
lit-NoCr [] h = tt
lit-NoCr (c ∷ s) h =
    let (here, later) = and_both (not (c == 13)) (without_cr s) h in
    (not_test c here, lit-NoCr s later)

-- `{method} {path} HTTP/1.1`
abbrev pub request_text : Text → Text → Text
request_text norm_method path = norm_method ++ (lit " " ++ (path ++ lit " HTTP/1.1"))

pub request_line-request_text :
    (token : Option Text) (n : ℕ) (m path rest : Text)
    → request_line token n m path ++ rest ≡ request_text m path ++ (line_end ++ rest)
unfolding request_line
request_line-request_text token n m path rest =
    append_assoc m (lit " " ++ (path ++ (lit " HTTP/1.1" ++ line_end))) rest
    ∙ ap (λ z. m ++ (lit " " ++ z)) (append_assoc path (lit " HTTP/1.1" ++ line_end) rest)
    ∙ ap (λ z. m ++ (lit " " ++ z)) (sym (append_assoc path (lit " HTTP/1.1") (line_end ++ rest)))
    ∙ sym (append_assoc m (lit " " ++ (path ++ lit " HTTP/1.1")) (line_end ++ rest))

pub request_text-NoCr : (m path : Text) → NoCr m → NoCr path → NoCr (request_text m path)
request_text-NoCr m path h p = both-NoCr m _ h (
    both-NoCr (lit " ") (path ++ lit " HTTP/1.1") (lit-NoCr (lit " ") refl)
      (both-NoCr path (lit " HTTP/1.1") p (lit-NoCr (lit " HTTP/1.1") refl)))
