-- ===== src/Stream/Framing.antt =====
-- The loop that the streaming parsers of enclave/src/main.rs share: append a chunk to the pending
-- bytes, and take items off the front until there is none, or until one is refused.
pub mod Steps
use proof_of_observation.Base.{
  ℕ, zero, suc, ◌<◌, ◌≡◌, refl, sym, ap, ◌∙◌, Bool, true, false, Option, none, some, List, [], ◌∷◌,
  ◌++◌, append_assoc, append-nil, arith, Bytes, length, length-append, if◌then◌else◌, Bool-cases,
  inl, inr,
}

-- What stands at the front of the pending bytes: too little to tell, an item and what follows it,
-- or something that is no item.
pub data Verdict (M : Type 0) : Type 0 where
  wait reject : Verdict M
  item : M → Bytes → Verdict M

abbrev pub then_more : {M : Type 0} → Bytes → Verdict M → Verdict M
then_more more wait = wait
then_more more reject = reject
then_more more (item m r) = item m (r ++ more)

abbrev pub Shorter : {M : Type 0} → Verdict M → Bytes → Type 0
Shorter (item m r) p = length r < length p
Shorter _ p = Unit

-- `w` is the verdict once `more` bytes have come, where it was `v` before them.
abbrev pub Decides : {M : Type 0} → Bytes → Verdict M → Verdict M → Type 0
Decides more wait w = Unit
Decides more v w = w ≡ then_more more v

-- A way to read the front: a verdict stays when more bytes come, and an item takes some bytes.
pub record Framing (M : Type 0) : Type 0 where
  pub step : Bytes → Verdict M
  pub decided : (p more : Bytes) → Decides more (step p) (step (p ++ more))
  pub shorter : (p : Bytes) → Shorter (step p) p

-- The parser's fields, and the state of the caller that takes the items.
pub record Progress (S : Type 0) : Type 0 where
  pub pending : Bytes
  pub failed : Bool
  pub state : S

abbrev pub joined : List Bytes → Bytes
joined [] = []
joined (c ∷ cs) = c ++ joined cs

module _ {M S : Type 0} (f : Framing M) (on_item : S → M → Option S) where
  -- `none` from the callback is a failure too; a failure forgets the pending bytes.
  resume : Option S → S → (S → Progress S) → Progress S
  resume none s again = record { pending = []; failed = true; state = s }
  resume (some s') s again = again s'

  round : Verdict M → Bytes → S → (Bytes → S → Progress S) → Progress S
  unfolding resume
  round wait p s again = record { pending = p; failed = false; state = s }
  round reject p s again = record { pending = []; failed = true; state = s }
  round (item m r) p s again = resume (on_item s m) s (again r)

  -- Each round takes a byte at least, so fuel above the length is enough.
  loop : ℕ → Bytes → S → Progress S
  unfolding round
  loop zero p s = record { pending = p; failed = false; state = s }
  loop (suc n) p s = round (f.step p) p s (loop n)

  unfoldable pub push : Bytes → Progress S → Progress S
  unfolding loop
  push chunk g =
      if g.failed then g else loop (suc (length (g.pending ++ chunk))) (g.pending ++ chunk) g.state

  -- Chunks, one after the other.
  unfoldable pub push_all : List Bytes → Progress S → Progress S
  unfolding push
  push_all [] g = g
  push_all (chunk ∷ chunks) g = push_all chunks (push chunk g)

  round-congr :
      (v : Verdict M) (p : Bytes) (s : S) (a b : Bytes → S → Progress S)
      → Shorter v p
      → ((r : Bytes) (s' : S) → length r < length p → a r s' ≡ b r s')
      → round v p s a ≡ round v p s b
  unfolding round
  round-congr wait p s a b h e = refl
  round-congr reject p s a b h e = refl
  round-congr (item m r) p s a b h e = go (on_item s m)
    where
      go : (o : Option S) → resume o s (a r) ≡ resume o s (b r)
      go none = refl
      go (some s') = e r s' h

  -- More fuel changes nothing.
  loop_fuel : (n m : ℕ) (p : Bytes) (s : S) → length p < n → length p < m → loop n p s ≡ loop m p s
  unfolding loop
  loop_fuel zero m p s h k = absurd (omega arith)
  loop_fuel (suc n) zero p s h k = absurd (omega arith)
  loop_fuel (suc n) (suc m) p s h k =
      round-congr (f.step p) p s (loop n) (loop m) (f.shorter p)
        (λ r s' lt. loop_fuel n m r s' (omega arith) (omega arith))

  -- A loop over more bytes is the loop over the first, and then a push of the rest.
  abbrev MoreLater : ℕ → Bytes → Bytes → Type 0
  MoreLater n p more =
      (r : Bytes) (s' : S) → length r < length p → loop n (r ++ more) s' ≡ push more (loop n r s')

  resume-more :
      (n : ℕ) (o : Option S) (s : S) (r more : Bytes)
      → ((s' : S) → loop n (r ++ more) s' ≡ push more (loop n r s'))
      → resume o s (loop n (r ++ more)) ≡ push more (resume o s (loop n r))
  unfolding resume push
  resume-more n none s r more ih = refl
  resume-more n (some s') s r more ih = ih s'

  round-more :
      (n : ℕ) (v : Verdict M) (p more : Bytes) (s : S)
      → Decides more v (f.step (p ++ more))
      → Shorter v p
      → length (p ++ more) < suc n
      → MoreLater n p more
      → loop (suc n) (p ++ more) s ≡ push more (round v p s (loop n))
  round-more n wait p more s e h fits ih =
      unfold push round in
      loop_fuel (suc n) (suc (length (p ++ more))) (p ++ more) s fits (omega arith)
  round-more n reject p more s e h fits ih = unfold loop push round in rw e
  round-more n (item m r) p more s e h fits ih =
      unfold loop round in rw e (resume-more n (on_item s m) s r more (λ s'. ih r s' h))

  loop-more :
      (n : ℕ) (p more : Bytes) (s : S)
      → length (p ++ more) < n
      → loop n (p ++ more) s ≡ push more (loop n p s)
  unfolding loop
  loop-more zero p more s h = absurd (omega arith)
  loop-more (suc n) p more s h =
      round-more n (f.step p) p more s (f.decided p more) (f.shorter p) h (λ r s' lt.
        loop-more n r more s' (omega (arith, length-append r more, length-append p more)))

  push_failed : (c : Bytes) (g : Progress S) → g.failed ≡ true → push c g ≡ g
  unfolding push
  push_failed c g h = ground arith

  push_going :
      (c : Bytes) (g : Progress S)
      → g.failed ≡ false
      → push c g ≡ loop (suc (length (g.pending ++ c))) (g.pending ++ c) g.state
  unfolding push
  push_going c g h = ground arith

  -- Two chunks have the effect of one chunk that holds both.
  pub push-append : (a b : Bytes) (g : Progress S) → push (a ++ b) g ≡ push b (push a g)
  push-append a b g = elim (Bool-cases g.failed) [
    | inl stopped ↦
        push_failed (a ++ b) g stopped
        ∙ sym (push_failed b g stopped)
        ∙ ap (push b) (sym (push_failed a g stopped))
    | inr going ↦
        let p = g.pending in
        push_going (a ++ b) g going
        ∙ ap (λ z. loop (suc (length z)) z g.state) (sym (append_assoc p a b))
        ∙ loop-more (suc (length ((p ++ a) ++ b))) (p ++ a) b g.state (omega arith)
        ∙ ap (push b) (
            loop_fuel (suc (length ((p ++ a) ++ b))) (suc (length (p ++ a))) (p ++ a) g.state
              (omega (arith, length-append (p ++ a) b)) (omega arith)
            ∙ sym (push_going a g going))
  ]

  -- Pushing chunks in turn has the effect of pushing all the bytes at once.
  push_all-joined :
      (c : Bytes) (cs : List Bytes) (g : Progress S)
      → push_all (c ∷ cs) g ≡ push (joined (c ∷ cs)) g
  unfolding push_all
  push_all-joined c [] g = rw append-nil
  push_all-joined c (d ∷ cs) g =
      push_all-joined d cs (push c g) ∙ sym (push-append c (joined (d ∷ cs)) g)

  -- However the same bytes are cut into chunks, at least one, the parser ends in the same state and
  -- has handed over the same items.
  pub push_all_cut :
      (c : Bytes) (cs : List Bytes) (d : Bytes) (ds : List Bytes) (g : Progress S)
      → joined (c ∷ cs) ≡ joined (d ∷ ds)
      → push_all (c ∷ cs) g ≡ push_all (d ∷ ds) g
  push_all_cut c cs d ds g e =
      push_all-joined c cs g ∙ ap (λ z. push z g) e ∙ sym (push_all-joined d ds g)

  resume-waits :
      (o : Option S) (s : S) (again : S → Progress S)
      → f.step [] ≡ wait
      → ((s' : S) → f.step (again s').pending ≡ wait)
      → f.step (resume o s again).pending ≡ wait
  unfolding resume
  resume-waits none s again empty h = empty
  resume-waits (some s') s again empty h = h s'

  round-waits :
      (v : Verdict M) (p : Bytes) (s : S) (again : Bytes → S → Progress S)
      → f.step p ≡ v
      → Shorter v p
      → f.step [] ≡ wait
      → ((r : Bytes) (s' : S) → length r < length p → f.step (again r s').pending ≡ wait)
      → f.step (round v p s again).pending ≡ wait
  unfolding round
  round-waits wait p s again e h empty k = e
  round-waits reject p s again e h empty k = empty
  round-waits (item m r) p s again e h empty k =
      resume-waits (on_item s m) s (again r) empty (λ s'. k r s' h)

  loop-waits :
      (n : ℕ) (p : Bytes) (s : S)
      → f.step [] ≡ wait
      → length p < n
      → f.step (loop n p s).pending ≡ wait
  unfolding loop
  loop-waits zero p s empty h = absurd (omega arith)
  loop-waits (suc n) p s empty h =
      round-waits (f.step p) p s (loop n) refl (f.shorter p) empty
        (λ r s' lt. loop-waits n r s' empty (omega arith))

  -- After a chunk no whole item is left over: the loop has run to its end.
  pub push-waits :
      (c : Bytes) (g : Progress S)
      → f.step [] ≡ wait
      → f.step g.pending ≡ wait
      → f.step (push c g).pending ≡ wait
  push-waits c g empty h = elim (Bool-cases g.failed) [
    | inl stopped ↦ rw (push_failed c g stopped) h
    | inr going ↦
        rw (push_going c g going) (loop-waits _ (g.pending ++ c) g.state empty (omega arith))
  ]
