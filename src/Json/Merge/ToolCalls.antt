-- ===== src/Json/Merge/ToolCalls.antt =====
-- What one streamed tool call does to the list of calls, in `merge_tool_calls` of enclave/src/main.rs.
use Prim.Native.Nat.{max}
use proof_of_observation.Base.{
  ℕ, zero, suc, ◌+◌, ◌-◌, ◌<◌, ◌≡◌, ◌≢◌, refl, ap, ◌∙◌, List, [], ◌∷◌, ◌++◌, arith, length,
  length-append, ltb, ◌==◌, if◌then◌else◌, Bool-cases, Bool, true, false, sym, inl, inr,
}
use proof_of_observation.Text.{lit}
use proof_of_observation.Json.{Value, Values, Object, object, fields, as_object, Libs}
use proof_of_observation.Json.Map.{get}
use proof_of_observation.Json.Merge.{and_then, unwrap_or}
use proof_of_observation.Json.Merge.Deltas.{
  get_or, set, pad, replicate, number_index, merge_tool_call, tool_call_fields, empty_object,
}

test_eq : (j i : ℕ) → (j == i) ≡ true → j ≡ i
test_eq j i h = ground arith

module _ {A : Type 0} where
  length-replicate : (n : ℕ) (a : A) → length (replicate n a) ≡ n
  length-replicate zero a = refl
  length-replicate (suc n) a = ap suc (length-replicate n a)

  length-set : (xs : List A) (i : ℕ) (v : A) → length (set xs i v) ≡ length xs
  length-set [] i v = refl
  length-set (x ∷ xs) zero v = refl
  length-set (x ∷ xs) (suc i) v = ap suc (length-set xs i v)

  get_or-set_ne :
      (xs : List A) (i j : ℕ) (v d : A) → i ≢ j → get_or (set xs i v) j d ≡ get_or xs j d
  get_or-set_ne [] i j v d ne = refl
  get_or-set_ne (x ∷ xs) zero zero v d ne = absurd (ne refl)
  get_or-set_ne (x ∷ xs) zero (suc j) v d ne = refl
  get_or-set_ne (x ∷ xs) (suc i) zero v d ne = refl
  get_or-set_ne (x ∷ xs) (suc i) (suc j) v d ne = get_or-set_ne xs i j v d (λ e. ne (ap suc e))

  get_or-set : (xs : List A) (i : ℕ) (v d : A) → i < length xs → get_or (set xs i v) i d ≡ v
  get_or-set [] i v d h = absurd (omega arith)
  get_or-set (x ∷ xs) zero v d h = refl
  get_or-set (x ∷ xs) (suc i) v d h = get_or-set xs i v d (omega arith)

  get_or-replicate : (n j : ℕ) (a d : A) → get_or (replicate n a) j d ≡ (if ltb j n then a else d)
  get_or-replicate zero j a d = ground arith
  get_or-replicate (suc n) zero a d = ground arith
  get_or-replicate (suc n) (suc j) a d = ground (arith, get_or-replicate n j a d)

  get_or-behind : (xs : List A) (i : ℕ) (d : A) → ltb i (length xs) ≡ false → get_or xs i d ≡ d
  get_or-behind [] i d h = refl
  get_or-behind (x ∷ xs) zero d h = ground (arith, h)
  get_or-behind (x ∷ xs) (suc i) d h = get_or-behind xs i d (ground (arith, h))

  -- Behind a list: its items, then the others.
  get_or-append_all :
      (xs ys : List A) (j : ℕ) (d : A)
      → get_or (xs ++ ys) j d
        ≡ (if ltb j (length xs) then get_or xs j d else get_or ys (j - length xs) d)
  get_or-append_all [] ys j d = ground arith
  get_or-append_all (x ∷ xs) ys zero d = ground arith
  get_or-append_all (x ∷ xs) ys (suc j) d = ground (arith, get_or-append_all xs ys j d)

ite_same : {A : Type 0} (b : Bool) (a : A) → (if b then a else a) ≡ a
ite_same true a = refl
ite_same false a = refl

length-pad : {N : Type 0} (v : Values N) (i : ℕ) → length (pad v i) ≡ max (length v) (i + 1)
unfolding pad
length-pad v i =
    omega (
      arith,
      length-append v (replicate (i + 1 - length v) _),
      length-replicate (i + 1 - length v) _,
    )

-- A write at an index after padding up to it.
length-set-pad :
    {N : Type 0} (v : Values N) (i : ℕ) (x : Value N)
    → length (set (pad v i) i x) ≡ max (length v) (i + 1)
length-set-pad v i x = length-set (pad v i) i x ∙ length-pad v i

-- What stands in the list after a write at `i` that pads it: the written value, what stood there, an
-- empty object in the gap, and nothing behind the end.
abbrev pub after_write : {N : Type 0} → Values N → ℕ → Value N → ℕ → Value N → Value N
after_write v i x j d =
    if j == i
    then x
    else if ltb j (length v)
    then get_or v j d
    else if ltb j i
    then empty_object
    else d

get_or-pad :
    {N : Type 0} (v : Values N) (i j : ℕ) (d : Value N)
    → i ≢ j
    → get_or (pad v i) j d
      ≡ (if ltb j (length v) then get_or v j d else if ltb j i then empty_object else d)
unfolding pad
get_or-pad v i j d ne =
    get_or-append_all v (replicate (i + 1 - length v) empty_object) j d
    ∙ ground (arith, get_or-replicate (i + 1 - length v) (j - length v) empty_object d)

get_or-set-pad :
    {N : Type 0} (v : Values N) (i j : ℕ) (x d : Value N)
    → get_or (set (pad v i) i x) j d ≡ after_write v i x j d
get_or-set-pad v i j x d = elim (Bool-cases (j == i)) [
  | inl here ↦
      ap (λ k. get_or (set (pad v i) i x) k d) (test_eq j i here)
      ∙ get_or-set (pad v i) i x d (omega (arith, length-pad v i))
      ∙ rw here refl
  | inr there ↦
      get_or-set_ne (pad v i) i j x d (λ e. ground (arith, e))
      ∙ get_or-pad v i j d (λ e. ground (arith, e))
      ∙ rw there refl
]

-- The index that one delta is for: its own, or the next free one.
abbrev pub target_index : (libs : Libs) → Values libs.Number → Object libs.Number → ℕ
target_index libs current raw =
    unwrap_or (length current) (and_then (get (lit "index") raw) (number_index libs))

-- The call at the delta's index, with the delta's fields merged into its own.
abbrev pub merged_call : (libs : Libs) → Values libs.Number → Object libs.Number → Value libs.Number
merged_call libs current raw =
    let old = get_or current (target_index libs current raw) empty_object in
    object (fields (tool_call_fields libs raw (unwrap_or [] (as_object old))))

-- Reading at the padded index, with an empty object for none.
get_or-pad_here :
    {N : Type 0} (v : Values N) (i : ℕ) → get_or (pad v i) i empty_object ≡ get_or v i empty_object
unfolding pad
get_or-pad_here v i =
    get_or-append_all v (replicate (i + 1 - length v) empty_object) i empty_object
    ∙ (elim (Bool-cases (ltb i (length v))) [
      | inl within ↦ rw within refl
      | inr behind ↦ rw behind (
          get_or-replicate (i + 1 - length v) (i - length v) empty_object empty_object
          ∙ ite_same (ltb (i - length v) (i + 1 - length v)) empty_object
          ∙ sym (get_or-behind v i empty_object behind))
    ])

module _ (libs : Libs) where
  -- For every delta and every list of calls, also an empty one: the list becomes just long enough
  -- for the delta's index, that index holds the old call there, or a new one, with the delta's
  -- fields merged into it, every other call that was there is unchanged, and the gap in front of a
  -- new call is filled with empty objects.
  pub merge_tool_call-after_write :
      (current : Values libs.Number) (raw : Object libs.Number) (j : ℕ) (d : Value libs.Number)
      → (length (merge_tool_call libs current raw)
          ≡ max (length current) (target_index libs current raw + 1))
        × (get_or (merge_tool_call libs current raw) j d
            ≡ after_write current
                (target_index libs current raw)
                (merged_call libs current raw)
                j
                d)
  unfolding merge_tool_call
  merge_tool_call-after_write current raw j d =
      let i = target_index libs current raw in
      (
        length-set-pad current i _,
        get_or-set-pad current i j _ d
            ∙ ap
                (λ old.
                  after_write current i
                    (object (fields (tool_call_fields libs raw (unwrap_or [] (as_object old))))) j
                    d)
                (get_or-pad_here current i),
      )
