-- ===== src/Http/Find.antt =====
-- `find` of enclave/src/main.rs: the first place where `needle` stands in `hay`. The search by
-- index is a walk down the list.
use proof_of_observation.Base.{
  ℕ, zero, suc, ◌+◌, ◌≤◌, ◌≡◌, ◌≢◌, refl, true, ◌||◌, Option, none, some, [], ◌∷◌, ◌++◌, arith,
  Bytes, length, take, drop, length-append, ltb, if◌then◌else◌,
}
use proof_of_observation.Text.{is_empty, starts_with}

abbrev bump : Option ℕ → Option ℕ
bump none = none
bump (some i) = some (suc i)

walk : Bytes → Bytes → Option ℕ
walk [] needle = none
walk (x ∷ hay) needle =
    let later = walk hay needle in if starts_with needle (x ∷ hay) then some 0 else bump later

unfoldable pub find : Bytes → Bytes → Option ℕ
unfolding walk starts_with
find hay needle =
    if is_empty needle || ltb (length hay) (length needle) then none else walk hay needle

-- The needles that the code looks for.
abbrev pub crlf : Bytes
crlf = 13 ∷ 10 ∷ []

abbrev pub crlf_crlf : Bytes
crlf_crlf = 13 ∷ 10 ∷ 13 ∷ 10 ∷ []

pub starts_with-split :
    (needle hay : Bytes) → starts_with needle hay ≡ true → hay ≡ needle ++ drop (length needle) hay
unfolding starts_with
starts_with-split [] hay h = refl
starts_with-split (p ∷ ps) [] h = cc
starts_with-split (p ∷ ps) (c ∷ s) h = ground (arith, starts_with-split ps s)

pub starts_with-append : (needle rest : Bytes) → starts_with needle (needle ++ rest) ≡ true
unfolding starts_with
starts_with-append [] rest = refl
starts_with-append (p ∷ ps) rest = ground (arith, starts_with-append ps rest)

bump-ne_zero : (o : Option ℕ) → bump o ≢ some 0
bump-ne_zero none h = cc
bump-ne_zero (some i) h = cc

walk-split :
    (hay needle : Bytes) (i : ℕ)
    → walk hay needle ≡ some i
    → hay ≡ take i hay ++ (needle ++ drop (i + length needle) hay)
unfolding walk
walk-split [] needle i h = cc
walk-split (x ∷ hay) needle zero h =
    let e : zero + length needle ≡ length needle = omega arith in
    rw e (ground (arith, starts_with-split needle (x ∷ hay), bump-ne_zero (walk hay needle)))
walk-split (x ∷ hay) needle (suc j) h =
    let e : suc j + length needle ≡ suc (j + length needle) = omega arith in
    rw e (ground (arith, walk-split hay needle j))

-- Where `find` returns a place, the needle stands there.
pub find-split :
    (hay needle : Bytes) (i : ℕ)
    → find hay needle ≡ some i
    → hay ≡ take i hay ++ (needle ++ drop (i + length needle) hay)
unfolding find
find-split hay needle i h = ground (arith, walk-split hay needle i)

starts_with-length :
    (needle hay : Bytes) → starts_with needle hay ≡ true → length needle ≤ length hay
unfolding starts_with
starts_with-length [] hay h = omega arith
starts_with-length (p ∷ ps) [] h = cc
starts_with-length (p ∷ ps) (c ∷ s) h = ground (arith, starts_with-length ps s)

starts_with-extend :
    (needle hay more : Bytes)
    → length needle ≤ length hay
    → starts_with needle (hay ++ more) ≡ starts_with needle hay
unfolding starts_with
starts_with-extend [] hay more h = refl
starts_with-extend (p ∷ ps) [] more h = absurd (omega arith)
starts_with-extend (p ∷ ps) (c ∷ s) more h = ground (arith, starts_with-extend ps s more)

walk-length :
    (hay needle : Bytes) (i : ℕ) → walk hay needle ≡ some i → i + length needle ≤ length hay
unfolding walk
walk-length [] needle i h = cc
walk-length (x ∷ hay) needle zero h =
    ground (arith, starts_with-length needle (x ∷ hay), bump-ne_zero (walk hay needle))
walk-length (x ∷ hay) needle (suc j) h = ground (arith, walk-length hay needle j)

walk-extend :
    (hay needle more : Bytes) (i : ℕ)
    → walk hay needle ≡ some i
    → walk (hay ++ more) needle ≡ some i
unfolding walk
walk-extend [] needle more i h = cc
walk-extend (x ∷ hay) needle more zero h = ground (
  arith,
  starts_with-extend needle (x ∷ hay) more,
  starts_with-length needle (x ∷ hay),
  bump-ne_zero (walk hay needle),
)
walk-extend (x ∷ hay) needle more (suc j) h = ground (
  arith,
  walk-extend hay needle more j,
  walk-length hay needle j,
  starts_with-extend needle (x ∷ hay) more,
)

-- Bytes that come later do not move the place that was found.
pub find-extend :
    (hay needle more : Bytes) (i : ℕ)
    → find hay needle ≡ some i
    → find (hay ++ more) needle ≡ some i
unfolding find
find-extend hay needle more i h =
    ground (arith, walk-extend hay needle more i, length-append hay more)

-- A line with no CR ends at the first CR LF.
abbrev pub NoCr : Bytes → Type 0
NoCr [] = Unit
NoCr (x ∷ line) = (x ≢ 13) × NoCr line

walk_line :
    (line rest : Bytes) → NoCr line → walk (line ++ (crlf ++ rest)) crlf ≡ some (length line)
unfolding walk starts_with
walk_line [] rest h = refl
walk_line (x ∷ line) rest h = ground (arith, walk_line line rest h.1)

pub find_line :
    (line rest : Bytes) → NoCr line → find (line ++ (crlf ++ rest)) crlf ≡ some (length line)
unfolding find
find_line line rest h = ground (arith, walk_line line rest h, length-append line (crlf ++ rest))
