-- ===== src/Stream/Sse.antt =====
-- `SseEventParser` of enclave/src/main.rs, and the parsing of one event's data that
-- `flush_sse_data` shares with it.
use proof_of_observation.Base.{
  ℕ, ◌≡◌, refl, Bool, true, false, ◌||◌, Option, none, some, List, [], ◌∷◌, ◌++◌, Bytes, arith,
  ◌==◌, equal, if◌then◌else◌, ap,
}
use proof_of_observation.Text.{Text, lit, trim, trim_start, strip_prefix, join, is_empty}
use proof_of_observation.Text.Utf8.{from_utf8_lossy, as_bytes}
use proof_of_observation.Hash.{sha256_hex}
use proof_of_observation.Json.{Value, string, object, fields, Libs}
use proof_of_observation.Json.Map.{insert}
use proof_of_observation.Stream.Framing.{
  Verdict, wait, reject, item, Shorter, Decides, Framing, Progress, push, push_all, joined,
  push_all_cut,
}

-- The bytes up to the first LF, which is dropped, and what follows it.
abbrev pub cons_line : ℕ → Verdict Bytes → Verdict Bytes
cons_line c wait = wait
cons_line c reject = reject
cons_line c (item l r) = item (c ∷ l) r

unfoldable pub cut_line : Bytes → Verdict Bytes
cut_line [] = wait
cut_line (c ∷ s) = let later = cut_line s in if c == 10 then item [] s else cons_line c later

cons_line-decided :
    (c : ℕ) (v w : Verdict Bytes) (more : Bytes)
    → Decides more v w
    → Decides more (cons_line c v) (cons_line c w)
cons_line-decided c wait w more h = tt
cons_line-decided c reject w more h = ap (cons_line c) h
cons_line-decided c (item l r) w more h = ap (cons_line c) h

test-decided :
    (b : Bool) (c : ℕ) (s more : Bytes) (v w : Verdict Bytes)
    → Decides more v w
    → Decides more
        (if b then item [] s else cons_line c v)
        (if b then item [] (s ++ more) else cons_line c w)
test-decided true c s more v w h = refl
test-decided false c s more v w h = cons_line-decided c v w more h

pub cut_line-decided : (p more : Bytes) → Decides more (cut_line p) (cut_line (p ++ more))
unfolding cut_line
cut_line-decided [] more = tt
cut_line-decided (c ∷ s) more =
    test-decided (c == 10) c s more (cut_line s) (cut_line (s ++ more)) (cut_line-decided s more)

test-Shorter :
    (b : Bool) (c : ℕ) (s : Bytes) (v : Verdict Bytes)
    → Shorter v s
    → Shorter (if b then item [] s else cons_line c v) (c ∷ s)
test-Shorter true c s v h = omega arith
test-Shorter false c s wait h = tt
test-Shorter false c s reject h = tt
test-Shorter false c s (item l r) h = omega arith

pub cut_line-Shorter : (p : Bytes) → Shorter (cut_line p) p
unfolding cut_line
cut_line-Shorter [] = tt
cut_line-Shorter (c ∷ s) = test-Shorter (c == 10) c s (cut_line s) (cut_line-Shorter s)

abbrev pub lines : Framing Bytes
lines = record { step = cut_line; decided = cut_line-decided; shorter = cut_line-Shorter }

-- `if line.last() == Some(&b'\r') { line.pop(); }`
unfoldable pub strip_cr : Bytes → Bytes
strip_cr [] = []
strip_cr (c ∷ []) = if c == 13 then [] else c ∷ []
strip_cr (c ∷ (d ∷ r)) = c ∷ strip_cr (d ∷ r)

module _ (libs : Libs) where
  -- What stands for data that is no JSON.
  abbrev invalid_data : Text → Value libs.Number
  invalid_data data_text =
      let digest =
        insert (lit "raw_data_sha256") (string (sha256_hex libs (as_bytes data_text))) [] in
      object (fields (insert (lit "parse_error") (string (lit "invalid_sse_json")) digest))

  abbrev parsed_or : Option (Value libs.Number) → Text → Value libs.Number
  parsed_or none data_text = invalid_data data_text
  parsed_or (some v) data_text = v

  module _ {S : Type 0} (on_event : S → Value libs.Number → S) where
    -- The data lines of the event so far, and the caller's state.
    unfoldable pub flush : List Text × S → List Text × S
    unfolding join trim
    flush ([], s) = ([], s)
    flush (l ∷ data_lines, s) =
        let data_text = join (10 ∷ []) (l ∷ data_lines) in
        if is_empty (trim data_text) || equal (trim data_text) (lit "[DONE]")
        then ([], s)
        else ([], on_event s (parsed_or (libs.from_str data_text) data_text))

    unfoldable pub data_line : Option Text → List Text × S → List Text × S
    unfolding trim_start
    data_line none (data_lines, s) = (data_lines, s)
    data_line (some rest) (data_lines, s) = (data_lines ++ trim_start rest ∷ [], s)

    unfoldable pub process_line : Bytes → List Text × S → List Text × S
    unfolding flush data_line strip_prefix from_utf8_lossy
    process_line line st =
        if is_empty line
        then flush st
        else data_line (strip_prefix (lit "data:") (from_utf8_lossy line)) st

    -- The loop's body never fails.
    abbrev pub sse_line : List Text × S → Bytes → Option (List Text × S)
    sse_line st line = some (process_line (strip_cr line) st)

    abbrev pub sse_start : S → Progress (List Text × S)
    sse_start s = record { pending = []; failed = false; state = ([], s) }

    unfoldable pub sse_push : Bytes → Progress (List Text × S) → Progress (List Text × S)
    unfolding push process_line
    sse_push = push lines sse_line

    -- One call of `push` for each chunk of the response.
    unfoldable pub sse_push_all : List Bytes → Progress (List Text × S) → Progress (List Text × S)
    unfolding push_all sse_push
    sse_push_all = push_all lines sse_line

    abbrev pub last_line : Bytes → List Text × S → List Text × S
    last_line [] st = st
    last_line (c ∷ line) st = process_line (c ∷ line) st

    unfoldable pub sse_finish : Progress (List Text × S) → S
    unfolding process_line
    sse_finish g = (flush (last_line g.pending g.state)).1

    -- However the bytes of a response are cut into chunks, at least one, the parser hands over the
    -- same events.
    pub sse_cut :
        (c : Bytes) (cs : List Bytes) (d : Bytes) (ds : List Bytes) (s : S)
        → joined (c ∷ cs) ≡ joined (d ∷ ds)
        → sse_finish (sse_push_all (c ∷ cs) (sse_start s))
          ≡ sse_finish (sse_push_all (d ∷ ds) (sse_start s))
    unfolding sse_push_all
    sse_cut c cs d ds s e = ap sse_finish (push_all_cut lines sse_line c cs d ds (sse_start s) e)
