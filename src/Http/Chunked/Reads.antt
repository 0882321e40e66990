-- ===== src/Http/Chunked/Reads.antt =====
-- How `stream_chunked` of enclave/src/main.rs reads a line and the bytes of a chunk, from whatever
-- pieces arrive.
use proof_of_observation.Base.{
  ℕ, zero, suc, ◌+◌, ◌≤◌, ◌<◌, ◌≡◌, Bool, refl, sym, ap, ◌∙◌, true, false, none, some, Option, [],
  ◌∷◌, ◌++◌, append_assoc, append-nil, arith, Bytes, length, take, drop, length-append, ltb, ok,
  ltb→lt, length-take, take-append_short, drop-append_short, take-length_append, drop-length_append,
  drop-add,
}
use proof_of_observation.Http.Find.{find, crlf, find-split, find-extend, find_line, NoCr}
use proof_of_observation.Http.Input.{
  Input, Got, size, arrives, ReadView, ended, more, broken, read-view,
}
use proof_of_observation.Http.Plain.{buffer}
use proof_of_observation.Http.Chunked.{
  Line, Filled, line_read, line_step, fill_line, body_read, body_step, fill_body,
}

-- A line was read, and what is in hand behind it and still to come is what follows the line.
pub record LineRead (line later : Bytes) (r : Line) : Type 0 where
  pub got : Bytes
  pub rest : Input
  pub result : r ≡ ok ((length line, got), rest)
  pub taken : take (length line) got ≡ line
  pub left : drop (length line + 2) got ++ arrives rest ≡ later

some_injective : (a b : ℕ) → Path (Option ℕ) (some a) (some b) → a ≡ b
some_injective a b h = cc

drop_line : (line later : Bytes) → drop (length line + 2) (line ++ (crlf ++ later)) ≡ later
drop_line line later =
    drop-add (length line) 2 (line ++ (crlf ++ later))
    ∙ ap (drop 2) (drop-length_append line (crlf ++ later))

line_found :
    (line later buf : Bytes) (input : Input) (p : ℕ)
    → NoCr line
    → buf ++ arrives input ≡ line ++ (crlf ++ later)
    → find buf crlf ≡ some p
    → LineRead line later (ok ((p, buf), input))
line_found line later buf input p clean e h =
    let there : length line ≡ p = some_injective (length line) p (
      sym (find_line line later clean)
      ∙ ap (λ z. find z crlf) (sym e)
      ∙ find-extend buf crlf (arrives input) p h) in
    let count : length buf ≡ length (take p buf) + length (crlf ++ drop (p + 2) buf) =
      ap length (find-split buf crlf p h) ∙ length-append (take p buf) (crlf ++ drop (p + 2) buf) in
    let room : length line + 2 ≤ length buf = omega (arith, count, there, length-take p buf) in
    record {
      got = buf;
      rest = input;
      result = ap (λ k. ok ((k, buf), input)) (sym there);
      taken =
          sym (take-append_short (length line) buf (arrives input) (omega arith))
          ∙ ap (take (length line)) e
          ∙ take-length_append line (crlf ++ later);
      left =
          sym (drop-append_short (length line + 2) buf (arrives input) room)
          ∙ ap (drop (length line + 2)) e
          ∙ drop_line line later;
    }

abbrev pub ReadsLine : ℕ → (Bytes → Input → Line) → Bytes → Bytes → Type 0
ReadsLine fuel loop line later =
    (buf : Bytes) (input : Input)
    → size input < fuel
    → buf ++ arrives input ≡ line ++ (crlf ++ later)
    → LineRead line later (loop buf input)

not_missing :
    (line later buf : Bytes) → NoCr line → buf ≡ line ++ (crlf ++ later) → find buf crlf ≡ none → ⊥
not_missing line later buf clean e h =
    let there = find_line line later clean in let same = ap (λ z. find z crlf) e in cc

line_read-ReadsLine :
    (loop : Bytes → Input → Line) (fuel : ℕ) (line later buf : Bytes) (input : Input)
    {r : Got × Input}
    → NoCr line
    → ReadsLine fuel loop line later
    → size input < suc fuel
    → buf ++ arrives input ≡ line ++ (crlf ++ later)
    → find buf crlf ≡ none
    → ReadView buffer input r
    → LineRead line later (line_read loop buf r)
unfolding line_read
line_read-ReadsLine loop fuel line later buf input clean ih fits e h (ended none_left) = absurd (
    not_missing line later buf clean (sym (append-nil buf) ∙ ap (λ z. buf ++ z) (sym none_left) ∙ e)
      h)
line_read-ReadsLine loop fuel line later buf input clean ih fits e h (broken none_left) = absurd (
    not_missing line later buf clean (sym (append-nil buf) ∙ ap (λ z. buf ++ z) (sym none_left) ∙ e)
      h)
line_read-ReadsLine loop fuel line later buf input clean ih fits e h
      (more {x} {b} {input'} split room less) =
    ih (buf ++ (x ∷ b)) input' (omega arith)
      (append_assoc buf (x ∷ b) (arrives input') ∙ ap (λ z. buf ++ z) (sym split) ∙ e)

pub fill_line-ReadsLine :
    (fuel : ℕ) (line later : Bytes) → NoCr line → ReadsLine fuel (fill_line fuel) line later
unfolding fill_line line_step
fill_line-ReadsLine zero line later clean buf input fits e = absurd (omega arith)
fill_line-ReadsLine (suc fuel) line later clean buf input fits e =
    go (fill_line-ReadsLine fuel line later clean) (find buf crlf) refl
  where
    go :
        ReadsLine fuel (fill_line fuel) line later
        → (o : Option ℕ) → find buf crlf ≡ o
        → LineRead line later (line_step (fill_line fuel) buf input o)
    go ih (some p) h = line_found line later buf input p clean e h
    go ih none h =
        line_read-ReadsLine (fill_line fuel) fuel line later buf input clean ih fits e h
          (read-view buffer input (omega arith))

-- As many bytes as wanted are in hand, and none is lost.
pub record BodyRead (want : ℕ) (whole : Bytes) (r : Filled) : Type 0 where
  pub got : Bytes
  pub rest : Input
  pub result : r ≡ ok (got, rest)
  pub enough : want ≤ length got
  pub kept : got ++ arrives rest ≡ whole

abbrev pub ReadsBody : ℕ → (Bytes → Input → Filled) → ℕ → Bytes → Type 0
ReadsBody fuel loop want whole =
    (buf : Bytes) (input : Input)
    → size input < fuel
    → buf ++ arrives input ≡ whole
    → BodyRead want whole (loop buf input)

all_in_hand : (buf : Bytes) (later whole : Bytes) → later ≡ [] → buf ++ later ≡ whole → buf ≡ whole
all_in_hand buf later whole h e = sym (append-nil buf) ∙ ap (λ z. buf ++ z) (sym h) ∙ e

body_read-ReadsBody :
    (loop : Bytes → Input → Filled) (fuel want : ℕ) (whole buf : Bytes) (input : Input)
    {r : Got × Input}
    → ReadsBody fuel loop want whole
    → size input < suc fuel
    → want ≤ length whole
    → length buf < want
    → buf ++ arrives input ≡ whole
    → ReadView buffer input r
    → BodyRead want whole (body_read loop buf r)
unfolding body_read
body_read-ReadsBody loop fuel want whole buf input ih fits enough short e (ended h) =
    let same = ap length (all_in_hand buf _ whole h e) in absurd (omega (arith, same))
body_read-ReadsBody loop fuel want whole buf input ih fits enough short e (broken h) =
    let same = ap length (all_in_hand buf _ whole h e) in absurd (omega (arith, same))
body_read-ReadsBody loop fuel want whole buf input ih fits enough short e
      (more {x} {b} {input'} split room less) =
    ih (buf ++ (x ∷ b)) input' (omega arith)
      (append_assoc buf (x ∷ b) (arrives input') ∙ ap (λ z. buf ++ z) (sym split) ∙ e)

pub fill_body-ReadsBody :
    (fuel want : ℕ) (whole : Bytes)
    → want ≤ length whole
    → ReadsBody fuel (fill_body fuel want) want whole
unfolding fill_body body_step
fill_body-ReadsBody zero want whole enough buf input fits e = absurd (omega arith)
fill_body-ReadsBody (suc fuel) want whole enough buf input fits e =
    go (fill_body-ReadsBody fuel want whole enough) (ltb (length buf) want) refl
  where
    go :
        ReadsBody fuel (fill_body fuel want) want whole
        → (b : Bool) → ltb (length buf) want ≡ b
        → BodyRead want whole (body_step (fill_body fuel want) buf input b)
    go ih true h =
        body_read-ReadsBody (fill_body fuel want) fuel want whole buf input ih fits enough
          (ltb→lt (length buf) want h) e (read-view buffer input (omega arith))
    go ih false h = record {
      got = buf;
      rest = input;
      result = refl;
      enough = ground arith;
      kept = e;
    }
