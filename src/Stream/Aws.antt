-- ===== src/Stream/Aws.antt =====
-- `AwsEventStreamParser` of enclave/src/main.rs: messages with two lengths in front, a payload and
-- four bytes behind it.
use Prim.Native.Nat.{◌*◌}
use proof_of_observation.Base.{
  ℕ, ◌+◌, ◌-◌, ◌≤◌, ◌<◌, ◌≡◌, refl, Bool, true, false, ◌||◌, Option, none, some, List, [], ◌∷◌,
  ◌++◌, Bytes, arith, length, take, drop, take-append_short, drop-append_short, length-append,
  length-drop, ltb, if◌then◌else◌, ap, Bool-cases, inl, inr,
}
use proof_of_observation.Words.{big_endian}
use proof_of_observation.Text.{trim, is_empty}
use proof_of_observation.Text.Utf8.{from_utf8_lossy}
use proof_of_observation.Json.{Value, Libs}
use proof_of_observation.Stream.Framing.{
  Verdict, wait, reject, item, Shorter, Decides, Framing, Progress, push, push_all, joined,
  push_all_cut, push-waits,
}

abbrev pub max_message : ℕ
max_message = 1024 * 1024

abbrev pub total_len : Bytes → ℕ
total_len p = big_endian 0 (take 4 p)

abbrev pub headers_len : Bytes → ℕ
headers_len p = big_endian 0 (take 4 (drop 4 p))

-- The tests on the two lengths.
unfoldable pub bad_lengths : ℕ → ℕ → Bool
bad_lengths total headers = ltb total 16 || ltb max_message total || ltb (total - 16) headers

-- A message with the length of its headers, once all of it is there.
abbrev message_at : ℕ → ℕ → Bytes → Verdict (ℕ × Bytes)
message_at total headers p =
    if ltb (length p) total then wait else item (headers, take total p) (drop total p)

abbrev framed : ℕ → ℕ → Bytes → Verdict (ℕ × Bytes)
framed total headers p = if bad_lengths total headers then reject else message_at total headers p

unfoldable pub cut_message : Bytes → Verdict (ℕ × Bytes)
cut_message p = if ltb (length p) 12 then wait else framed (total_len p) (headers_len p) p

longer : (p more : Bytes) (n : ℕ) → ltb (length p) n ≡ false → ltb (length (p ++ more)) n ≡ false
longer p more n h = ground (arith, length-append p more)

message_at-decided :
    (total headers : ℕ) (p more : Bytes)
    → Decides more (message_at total headers p) (message_at total headers (p ++ more))
message_at-decided total headers p more = elim (Bool-cases (ltb (length p) total)) [
  | inl short ↦ rw short tt
  | inr whole ↦
      let fits : total ≤ length p = ground arith in
      rw (whole, longer p more total whole)
        (rw (take-append_short total p more fits, drop-append_short total p more fits))
]

framed-decided :
    (total headers : ℕ) (p more : Bytes)
    → Decides more (framed total headers p) (framed total headers (p ++ more))
framed-decided total headers p more = elim (Bool-cases (bad_lengths total headers)) [
  | inl refused ↦ rw refused
  | inr good ↦ rw good (message_at-decided total headers p more)
]

pub cut_message-decided : (p more : Bytes) → Decides more (cut_message p) (cut_message (p ++ more))
unfolding cut_message
cut_message-decided p more = elim (Bool-cases (ltb (length p) 12)) [
  | inl short ↦ rw short tt
  | inr enough ↦
      let there : 12 ≤ length p = ground arith in
      rw (enough, longer p more 12 enough)
        (rw
          (
            take-append_short 4 p more (omega arith),
            drop-append_short 4 p more (omega arith),
            take-append_short 4 (drop 4 p) more (omega (arith, length-drop 4 p)),
          )
          (framed-decided (total_len p) (headers_len p) p more))
]

message_at-Shorter :
    (total headers : ℕ) (p : Bytes) → 16 ≤ total → Shorter (message_at total headers p) p
message_at-Shorter total headers p h = elim (Bool-cases (ltb (length p) total)) [
  | inl short ↦ rw short tt
  | inr whole ↦ rw whole (ground (arith, length-drop total p))
]

framed-Shorter : (total headers : ℕ) (p : Bytes) → Shorter (framed total headers p) p
framed-Shorter total headers p = elim (Bool-cases (bad_lengths total headers)) [
  | inl refused ↦ rw refused tt
  | inr good ↦ rw good (message_at-Shorter total headers p (unfold bad_lengths in ground arith))
]

pub cut_message-Shorter : (p : Bytes) → Shorter (cut_message p) p
unfolding cut_message
cut_message-Shorter p = elim (Bool-cases (ltb (length p) 12)) [
  | inl short ↦ rw short tt
  | inr enough ↦ rw enough (framed-Shorter (total_len p) (headers_len p) p)
]

abbrev pub messages : Framing (ℕ × Bytes)
messages = record {
  step = cut_message;
  decided = cut_message-decided;
  shorter = cut_message-Shorter;
}

-- `message[payload_start..payload_end]`, where that is a range.
unfoldable pub payload_of : ℕ → Bytes → Option Bytes
payload_of headers message =
    let start = 12 + headers in
    let end = length message - 4 in
    if ltb end start then none else some (take (end - start) (drop start message))

cut_empty : cut_message [] ≡ wait
unfolding cut_message
cut_empty = refl

wait-bounded : (p : Bytes) → cut_message p ≡ wait → length p < max_message
unfolding cut_message bad_lengths
wait-bounded p h = ground arith

module _ (libs : Libs) {S : Type 0} (on_event : S → Value libs.Number → S) where
  event_or_fail : S → Option (Value libs.Number) → Option S
  event_or_fail s none = none
  event_or_fail s (some v) = some (on_event s v)

  payload_event : S → Option Bytes → Option S
  unfolding event_or_fail trim from_utf8_lossy
  payload_event s none = some s
  payload_event s (some payload) =
      let trimmed = trim (from_utf8_lossy payload) in
      if is_empty trimmed then some s else event_or_fail s (libs.from_str trimmed)

  unfoldable pub aws_message : S → ℕ × Bytes → Option S
  unfolding payload_event payload_of
  aws_message s m = payload_event s (payload_of m.0 m.1)

  abbrev pub aws_start : S → Progress S
  aws_start s = record { pending = []; failed = false; state = s }

  unfoldable pub aws_push : Bytes → Progress S → Progress S
  unfolding push aws_message cut_message
  aws_push = push messages aws_message

  unfoldable pub aws_push_all : List Bytes → Progress S → Progress S
  unfolding push_all aws_push
  aws_push_all = push_all messages aws_message

  -- `finish`: what is left over is a failure.
  unfoldable pub aws_finish : Progress S → Progress S
  aws_finish g = if is_empty g.pending then g else record g { pending = []; failed = true }

  -- However the bytes of a response are cut into chunks, at least one, the parser ends in the
  -- same state: the same events, and a failure or not alike.
  pub aws_cut :
      (c : Bytes) (cs : List Bytes) (d : Bytes) (ds : List Bytes) (s : S)
      → joined (c ∷ cs) ≡ joined (d ∷ ds)
      → aws_finish (aws_push_all (c ∷ cs) (aws_start s))
        ≡ aws_finish (aws_push_all (d ∷ ds) (aws_start s))
  unfolding aws_push_all
  aws_cut c cs d ds s e =
      ap aws_finish (push_all_cut messages aws_message c cs d ds (aws_start s) e)

  -- After every chunk, however long, the pending bytes still wait for more, if they did before, and
  -- are fewer than the largest message has.
  pub aws_push_bounded :
      (c : Bytes) (g : Progress S)
      → cut_message g.pending ≡ wait
      → (cut_message (aws_push c g).pending ≡ wait) × (length (aws_push c g).pending < max_message)
  unfolding aws_push
  aws_push_bounded c g h =
      let waits = push-waits messages aws_message c g cut_empty h in
      (waits, wait-bounded (push messages aws_message c g).pending waits)
