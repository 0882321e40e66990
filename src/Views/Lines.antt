-- ===== src/Views/Lines.antt =====
-- The lines of a body: `str::lines` on its lossy text, and the line cutting of the stream parser on
-- its bytes.
use proof_of_observation.Base.{
  ℕ, zero, suc, ◌≤◌, ◌<◌, ◌≡◌, ◌≢◌, refl, sym, subst, ap, ◌∙◌, inl, inr, Bool, true, false, List,
  [], ◌∷◌, ◌++◌, Bytes, arith, length, drop, All, All-drop, ◌==◌, if◌then◌else◌, Bool-cases,
}
use proof_of_observation.Text.{Text}
use proof_of_observation.Text.Utf8.{decode_step, shown, from_utf8_lossy}
use proof_of_observation.Text.Utf8.Lossy.{
  Tail, decode_step-Tail, Tail-length, Ascii, decode_step-Ascii, lossy_cons, lossy-ascii,
}
use proof_of_observation.Stream.Framing.{Verdict, wait, reject, item}
use proof_of_observation.Stream.Sse.{cut_line, cons_line, strip_cr}
use proof_of_observation.Views.{extend_line, split_inclusive, strip_line_end, strip_all, lines}

-- No line feed among the bytes, or the characters.
abbrev pub NoLf : List ℕ → Type 0
NoLf s = All (λ c. c ≢ 10) s

Tail-NoLf : (rest r : Bytes) → Tail rest r → NoLf r → NoLf rest
Tail-NoLf rest r (inl e) h = subst NoLf (sym e) h
Tail-NoLf rest r (inr (inl e)) h = subst NoLf (sym e) (All-drop _ 1 r h)
Tail-NoLf rest r (inr (inr (inl e))) h = subst NoLf (sym e) (All-drop _ 2 r h)
Tail-NoLf rest r (inr (inr (inr e))) h = subst NoLf (sym e) (All-drop _ 3 r h)

shown-NoLf : (b : ℕ) (r : Bytes) (front : ℕ × Bytes) → b ≢ 10 → Ascii b r front → front.0 ≢ 10
shown-NoLf b r front h (inl e) = omega arith
shown-NoLf b r front h (inr e) = λ k. h (sym e.0 ∙ k)

lossy-NoLf_fuel : (n : ℕ) (s : Bytes) → length s ≤ n → NoLf s → NoLf (from_utf8_lossy s)
unfolding from_utf8_lossy
lossy-NoLf_fuel n [] k h = h
lossy-NoLf_fuel zero (b ∷ r) k h = absurd (omega arith)
lossy-NoLf_fuel (suc n) (b ∷ r) k h =
    let front = shown (decode_step b r) in
    subst NoLf (sym (lossy_cons b r)) (
      shown-NoLf b r front h.0 (decode_step-Ascii b r),
      lossy-NoLf_fuel n front.1 (omega (arith, Tail-length front.1 r (decode_step-Tail b r)))
          (Tail-NoLf front.1 r (decode_step-Tail b r) h.1),
    )

-- The lossy text of a line has no line feed.
pub lossy-NoLf : (s : Bytes) → NoLf s → NoLf (from_utf8_lossy s)
lossy-NoLf s h = lossy-NoLf_fuel (length s) s (omega arith) h

-- Whether the last one is a carriage return.
abbrev ends_cr : List ℕ → Bool
ends_cr [] = false
ends_cr (c ∷ []) = c == 13
ends_cr (c ∷ (d ∷ r)) = ends_cr (d ∷ r)

ends-drop : (n : ℕ) (s : Bytes) → ends_cr (drop n s) ≡ true → ends_cr s ≡ true
ends-drop zero s h = h
ends-drop (suc n) [] h = h
ends-drop (suc n) (c ∷ []) h = ground (arith, ends-drop n [] h)
ends-drop (suc n) (c ∷ (d ∷ r)) h = ends-drop n (d ∷ r) h

ends-Tail : (rest r : Bytes) → Tail rest r → ends_cr rest ≡ true → ends_cr r ≡ true
ends-Tail rest r (inl e) h = ap ends_cr (sym e) ∙ h
ends-Tail rest r (inr (inl e)) h = ends-drop 1 r (ap ends_cr (sym e) ∙ h)
ends-Tail rest r (inr (inr (inl e))) h = ends-drop 2 r (ap ends_cr (sym e) ∙ h)
ends-Tail rest r (inr (inr (inr e))) h = ends-drop 3 r (ap ends_cr (sym e) ∙ h)

ends_more : (b : ℕ) (r : Bytes) → ends_cr r ≡ true → ends_cr (b ∷ r) ≡ true
ends_more b [] h = ground arith
ends_more b (d ∷ r) h = h

-- One step: `text` is the lossy text of `rest`, what the step leaves.
ends_step :
    (b : ℕ) (r : Bytes) (c : ℕ) (rest : Bytes) (text : Text)
    → Ascii b r (c, rest)
    → Tail rest r
    → text ≡ from_utf8_lossy rest
    → (ends_cr text ≡ true → ends_cr rest ≡ true)
    → ends_cr (c ∷ text) ≡ true
    → ends_cr (b ∷ r) ≡ true
ends_step b r c rest (d ∷ text) a t e ih h = ends_more b r (ends-Tail rest r t (ih h))
ends_step b r c rest [] (inl high) t e ih h = ground arith
ends_step b r c [] [] (inr w) t e ih h =
    subst (λ z. ends_cr (b ∷ z) ≡ true) w.1 (ground (arith, w.0))
ends_step b r c (d ∷ rest) [] (inr w) t e ih h = ground (arith, e ∙ lossy_cons d rest)

ends-lossy_fuel :
    (n : ℕ) (s : Bytes) → length s ≤ n → ends_cr (from_utf8_lossy s) ≡ true → ends_cr s ≡ true
unfolding from_utf8_lossy
ends-lossy_fuel n [] k h = h
ends-lossy_fuel zero (b ∷ r) k h = absurd (omega arith)
ends-lossy_fuel (suc n) (b ∷ r) k h =
    let front = shown (decode_step b r) in
    ends_step b r front.0 front.1 (from_utf8_lossy front.1) (decode_step-Ascii b r)
      (decode_step-Tail b r) refl
      (ends-lossy_fuel n front.1 (omega (arith, Tail-length front.1 r (decode_step-Tail b r))))
      (ap ends_cr (sym (lossy_cons b r)) ∙ h)

-- Without a carriage return at the end nothing is stripped.
strip_none : (s : Bytes) → ends_cr s ≡ false → strip_cr s ≡ s
unfolding strip_cr
strip_none [] h = refl
strip_none (c ∷ []) h = rw h refl
strip_none (c ∷ (d ∷ r)) h = ap (◌∷◌ c) (strip_none (d ∷ r) h)

strip_append : (s : Bytes) → strip_cr (s ++ (13 ∷ [])) ≡ s
unfolding strip_cr
strip_append [] = refl
strip_append (c ∷ []) = refl
strip_append (c ∷ (d ∷ r)) = ap (◌∷◌ c) (strip_append (d ∷ r))

ends_split : (s : Bytes) → ends_cr s ≡ true → s ≡ strip_cr s ++ (13 ∷ [])
unfolding strip_cr
ends_split [] h = ground arith
ends_split (c ∷ []) h = ground arith
ends_split (c ∷ (d ∷ r)) h = ap (◌∷◌ c) (ends_split (d ∷ r) h)

not_ends : (s : Bytes) → ends_cr s ≡ false → ends_cr (from_utf8_lossy s) ≡ false
not_ends s h = elim (Bool-cases (ends_cr (from_utf8_lossy s))) [
  | inl e ↦ ground (arith, ends-lossy_fuel (length s) s (omega arith) e)
  | inr e ↦ e
]

lossy-one :
    (s : Bytes) (a : ℕ) → a < 0x80 → from_utf8_lossy (s ++ (a ∷ [])) ≡ from_utf8_lossy s ++ (a ∷ [])
unfolding from_utf8_lossy
lossy-one s a h = lossy-ascii s a [] h

-- A carriage return at the end can be dropped before or after the text is read.
pub strip_cr-lossy : (s : Bytes) → strip_cr (from_utf8_lossy s) ≡ from_utf8_lossy (strip_cr s)
strip_cr-lossy s = elim (Bool-cases (ends_cr s)) [
  | inl ends ↦
      ap (λ z. strip_cr (from_utf8_lossy z)) (ends_split s ends)
      ∙ ap strip_cr (lossy-one (strip_cr s) 13 (omega arith))
      ∙ strip_append (from_utf8_lossy (strip_cr s))
  | inr not_cr ↦
      strip_none (from_utf8_lossy s) (not_ends s not_cr)
      ∙ ap from_utf8_lossy (sym (strip_none s not_cr))
]

not_lf : (c : ℕ) → c ≢ 10 → (c == 10) ≡ false
not_lf c h = ground arith

-- The last line has no line feed; the others are what stands before one.
split_last : (c : ℕ) (s : Text) → NoLf (c ∷ s) → split_inclusive (c ∷ s) ≡ (c ∷ s) ∷ []
unfolding split_inclusive
split_last c [] h = rw (not_lf c h.0) refl
split_last c (d ∷ s) h = rw (not_lf c h.0) (ap (extend_line c) (split_last d s h.1))

split_line :
    (s rest : Text)
    → NoLf s
    → split_inclusive (s ++ (10 ∷ rest)) ≡ (s ++ (10 ∷ [])) ∷ split_inclusive rest
unfolding split_inclusive
split_line [] rest h = refl
split_line (c ∷ s) rest h = rw (not_lf c h.0) (ap (extend_line c) (split_line s rest h.1))

strip_last : (s : Text) → NoLf s → strip_line_end s ≡ s
unfolding strip_line_end
strip_last [] h = refl
strip_last (c ∷ []) h = ground arith
strip_last (c ∷ (d ∷ [])) h = ground arith
strip_last (c ∷ (d ∷ (e ∷ r))) h = ap (◌∷◌ c) (strip_last (d ∷ (e ∷ r)) h.1)

strip_line : (s : Text) → NoLf s → strip_line_end (s ++ (10 ∷ [])) ≡ strip_cr s
unfolding strip_line_end strip_cr
strip_line [] h = refl
strip_line (c ∷ []) h = refl
strip_line (c ∷ (d ∷ [])) h = ap (◌∷◌ c) (strip_line (d ∷ []) h.1)
strip_line (c ∷ (d ∷ (e ∷ r))) h = ap (◌∷◌ c) (strip_line (d ∷ (e ∷ r)) h.1)

pub lines_last : (c : ℕ) (s : Text) → NoLf (c ∷ s) → lines (c ∷ s) ≡ (c ∷ s) ∷ []
unfolding lines
lines_last c s h = ap strip_all (split_last c s h) ∙ ap (λ z. z ∷ []) (strip_last (c ∷ s) h)

pub lines_line : (s rest : Text) → NoLf s → lines (s ++ (10 ∷ rest)) ≡ strip_cr s ∷ lines rest
unfolding lines
lines_line s rest h = ap strip_all (split_line s rest h) ∙ ap (λ z. z ∷ lines rest) (strip_line s h)

-- What the parser takes off the front is a line, or there is no line feed at all.
abbrev pub Cut : Bytes → Verdict Bytes → Type 0
Cut s wait = NoLf s
Cut s reject = ⊥
Cut s (item line rest) = NoLf line × (s ≡ line ++ (10 ∷ rest))

Cut-cons_line :
    (c : ℕ) (s : Bytes) (v : Verdict Bytes) → c ≢ 10 → Cut s v → Cut (c ∷ s) (cons_line c v)
Cut-cons_line c s wait h k = (h, k)
Cut-cons_line c s reject h k = elim k [ ]
Cut-cons_line c s (item line rest) h k = ((h, k.0), ap (◌∷◌ c) k.1)

pub cut : (s : Bytes) → Cut s (cut_line s)
unfolding cut_line
cut [] = tt
cut (c ∷ s) = elim (Bool-cases (c == 10)) [
  | inl e ↦
      subst (λ b. Cut (c ∷ s) (if b then item [] s else cons_line c (cut_line s))) (sym e)
        (tt, ap (λ z. z ∷ s) (ground arith))
  | inr e ↦
      subst (λ b. Cut (c ∷ s) (if b then item [] s else cons_line c (cut_line s))) (sym e)
        (Cut-cons_line c s (cut_line s) (ground arith) (cut s))
]
