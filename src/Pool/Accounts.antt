-- ===== src/Pool/Accounts.antt =====
-- What the counters of the worker pool, in enclave/src/main.rs, say of the connections: sums over
-- the workers, and the invariant that ties each counter to them.
use proof_of_observation.Base.{
  ℕ, zero, suc, ◌+◌, ◌%◌, ◌^◌, ◌≤◌, ◌≡◌, refl, subst, some, List, [], ◌∷◌, length, arith, All,
}
use proof_of_observation.Pool.{
  Metrics, Phase, receiving, received, dequeued, entered, handling, handled, left_flight, Acceptor,
  offered, sending, sent, full, Pool, get_elem?, set, queue_cap,
}

unfoldable pub tally : (Phase → ℕ) → List Phase → ℕ
tally f [] = 0
tally f (p ∷ ps) = f p + tally f ps

-- A worker that has a connection, still counts in `queue_depth`, or counts in `in_flight`.
abbrev pub busy : Phase → ℕ
busy receiving = 0
busy _ = 1

abbrev pub undequeued : Phase → ℕ
undequeued received = 1
undequeued _ = 0

abbrev pub flying : Phase → ℕ
flying (entered now) = 1
flying handling = 1
flying (handled how) = 1
flying _ = 0

-- A connection that the accept loop holds in `queue_depth` outside of the channel, and one that it
-- sent and has not counted.
abbrev pub held : Acceptor → ℕ
held (offered q) = 1
held sending = 1
held full = 1
held _ = 0

abbrev pub uncounted : Acceptor → ℕ
uncounted sent = 1
uncounted _ = 0

-- The values that wait for `bump_max` are within the limits.
abbrev pub Entered : ℕ → Phase → Type 0
Entered n (entered now) = now ≤ n
Entered n _ = Unit

abbrev pub Offered : ℕ → Acceptor → Type 0
Offered n (offered q) = q ≤ suc (queue_cap + n)
Offered n _ = Unit

abbrev pub finished : Metrics → ℕ
finished m = (m.completed + m.failed) + m.panicked

-- The invariant, for a pool of `n` workers.
pub record Sound (n : ℕ) (s : Pool) : Type 0 where
  pub size : length s.workers ≡ n
  pub queue_bound : s.metrics.queue ≤ queue_cap
  pub depth :
      s.metrics.queue_depth ≡ (s.metrics.queue + tally undequeued s.workers) + held s.acceptor
  pub flight : s.metrics.in_flight ≡ tally flying s.workers
  pub flight_max : s.metrics.in_flight_max ≤ n
  pub depth_max : s.metrics.queue_depth_max ≤ suc (queue_cap + n)
  pub entered_bound : All (Entered n) s.workers
  pub offered_bound : Offered n s.acceptor
  -- Counters of 64 bits wrap, so the balance holds up to a multiple of 2^64.
  pub balance :
      (s.metrics.accepted + uncounted s.acceptor) % 2 ^ 64
      ≡ ((s.metrics.queue + tally busy s.workers) + finished s.metrics) % 2 ^ 64

pub tally-set :
    (f : Phase → ℕ) (ps : List Phase) (i : ℕ) (p q : Phase)
    → get_elem? ps i ≡ some p
    → tally f (set ps i q) + f p ≡ tally f ps + f q
unfolding tally get_elem? set
tally-set f [] i p q h = cc
tally-set f (r ∷ ps) zero p q h = let e : r ≡ p = cc in rw e (omega arith)
tally-set f (r ∷ ps) (suc i) p q h = omega (arith, tally-set f ps i p q h)

pub length-set : (ps : List Phase) (i : ℕ) (q : Phase) → length (set ps i q) ≡ length ps
unfolding set
length-set [] i q = refl
length-set (p ∷ ps) zero q = refl
length-set (p ∷ ps) (suc i) q = omega (arith, length-set ps i q)

pub All-set {κ} :
    (P : Phase → Type κ) (ps : List Phase) (i : ℕ) (q : Phase) → All P ps → P q → All P (set ps i q)
unfolding set
All-set P [] i q h hq = h
All-set P (p ∷ ps) zero q h hq = (hq, h.1)
All-set P (p ∷ ps) (suc i) q h hq = (h.0, All-set P ps i q h.1 hq)

pub All-get :
    (P : Phase → Type 0) (ps : List Phase) (i : ℕ) (p : Phase)
    → All P ps
    → get_elem? ps i ≡ some p
    → P p
unfolding get_elem?
All-get P [] i p h e = cc
All-get P (r ∷ ps) zero p h e = let e' : r ≡ p = cc in subst P e' h.0
All-get P (r ∷ ps) (suc i) p h e = All-get P ps i p h.1 e

-- No worker counts twice.
pub tally_bound :
    (ps : List Phase)
    → (tally flying ps + tally undequeued ps ≤ tally busy ps) × (tally busy ps ≤ length ps)
unfolding tally
tally_bound [] = (omega arith, omega arith)
tally_bound (p ∷ ps) = let (a, b) = tally_bound ps in one p a b
  where
    one :
        (p : Phase)
        → tally flying ps + tally undequeued ps ≤ tally busy ps
        → tally busy ps ≤ length ps
        → (tally flying (p ∷ ps) + tally undequeued (p ∷ ps) ≤ tally busy (p ∷ ps))
          × (tally busy (p ∷ ps) ≤ length (p ∷ ps))
    one receiving a b = (omega arith, omega arith)
    one received a b = (omega arith, omega arith)
    one dequeued a b = (omega arith, omega arith)
    one (entered now) a b = (omega arith, omega arith)
    one handling a b = (omega arith, omega arith)
    one (handled how) a b = (omega arith, omega arith)
    one (left_flight how) a b = (omega arith, omega arith)
