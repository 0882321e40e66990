-- ===== src/Pool/Interleavings.antt =====
-- Any interleaving of the accept loop and the workers of enclave/src/main.rs, from the start of
-- `main`: the accept loop's steps keep the invariant too, so it holds throughout.
use proof_of_observation.Base.{
  ℕ, zero, suc, ◌+◌, ◌%◌, ◌^◌, ◌≤◌, ◌≡◌, refl, Option, none, some, List, [], ◌∷◌, length, arith,
  All,
}
use proof_of_observation.Pool.{
  Metrics, Phase, receiving, Acceptor, listening, offered, sending, sent, full, released, Pool,
  Action, accepts, works, get_elem?, step, run, start, accept, works_step, fetch_add, fetch_sub,
  bump_max, queue_cap, n_workers, waiting,
}
use proof_of_observation.Pool.Accounts.{
  tally, busy, undequeued, flying, held, uncounted, Entered, finished, Sound, All-get, tally_bound,
}
use proof_of_observation.Pool.Steps.{held_bound, room, moved, worker-Moves}

accept-Sound :
    (n : ℕ) (m : Metrics) (a : Acceptor) (ws : List Phase)
    → n ≤ n_workers
    → Sound n (record { metrics = m; acceptor = a; workers = ws })
    → Sound n (record { metrics = (accept a m).1; acceptor = (accept a m).0; workers = ws })
unfolding accept fetch_add fetch_sub bump_max
accept-Sound n m listening ws small h = record {
  size = h.size;
  queue_bound = h.queue_bound;
  depth = omega (arith, h.depth, h.queue_bound, h.size, tally_bound ws);
  flight = h.flight;
  flight_max = h.flight_max;
  depth_max = h.depth_max;
  entered_bound = h.entered_bound;
  offered_bound = omega (arith, h.depth, h.queue_bound, h.size, tally_bound ws);
  balance = h.balance;
}
accept-Sound n m (offered q) ws small h = record {
  size = h.size;
  queue_bound = h.queue_bound;
  depth = h.depth;
  flight = h.flight;
  flight_max = h.flight_max;
  depth_max = ground arith;
  entered_bound = h.entered_bound;
  offered_bound = tt;
  balance = h.balance;
}
accept-Sound n m sending ws small h = record {
  size = h.size;
  queue_bound = ground arith;
  depth = ground (arith, h.depth);
  flight = ground arith;
  flight_max = ground arith;
  depth_max = ground arith;
  entered_bound = h.entered_bound;
  offered_bound = ground arith;
  balance = ground arith;
}
accept-Sound n m sent ws small h = record {
  size = h.size;
  queue_bound = h.queue_bound;
  depth = h.depth;
  flight = h.flight;
  flight_max = h.flight_max;
  depth_max = h.depth_max;
  entered_bound = h.entered_bound;
  offered_bound = tt;
  balance = omega (arith, h.balance);
}
accept-Sound n m full ws small h = record {
  size = h.size;
  queue_bound = h.queue_bound;
  depth = omega (arith, h.depth, h.queue_bound, h.size, tally_bound ws);
  flight = h.flight;
  flight_max = h.flight_max;
  depth_max = h.depth_max;
  entered_bound = h.entered_bound;
  offered_bound = tt;
  balance = h.balance;
}
accept-Sound n m released ws small h = record {
  size = h.size;
  queue_bound = h.queue_bound;
  depth = h.depth;
  flight = h.flight;
  flight_max = h.flight_max;
  depth_max = h.depth_max;
  entered_bound = h.entered_bound;
  offered_bound = tt;
  balance = h.balance;
}

step-Sound : (n : ℕ) (a : Action) (s : Pool) → n ≤ n_workers → Sound n s → Sound n (step a s)
unfolding step works_step
step-Sound n accepts s small h = accept-Sound n s.metrics s.acceptor s.workers small h
step-Sound n (works i e) s small h = go (get_elem? s.workers i) refl
  where
    go : (o : Option Phase) → get_elem? s.workers i ≡ o → Sound n (works_step i e s o)
    go none g = h
    go (some p) g = moved n s i p _ _ h g (
        worker-Moves n e p s.metrics (room n s i p small h g) h.queue_bound h.flight_max h.depth_max
          (All-get (Entered n) s.workers i p h.entered_bound g))

run-Sound :
    (n : ℕ) (actions : List Action) (s : Pool) → n ≤ n_workers → Sound n s → Sound n (run actions s)
unfolding run
run-Sound n [] s small h = h
run-Sound n (a ∷ later) s small h = run-Sound n later (step a s) small (step-Sound n a s small h)

tally-waiting : (f : Phase → ℕ) (n : ℕ) → f receiving ≡ 0 → tally f (waiting n) ≡ 0
unfolding tally
tally-waiting f zero h = refl
tally-waiting f (suc n) h = omega (arith, h, tally-waiting f n h)

length-waiting : (n : ℕ) → length (waiting n) ≡ n
length-waiting zero = refl
length-waiting (suc n) = omega (arith, length-waiting n)

Entered-waiting : (n k : ℕ) → All (Entered n) (waiting k)
Entered-waiting n zero = tt
Entered-waiting n (suc k) = (tt, Entered-waiting n k)

start-Sound : (n : ℕ) → Sound n (start n)
unfolding start
start-Sound n = record {
  size = length-waiting n;
  queue_bound = omega arith;
  depth = omega (arith, tally-waiting undequeued n refl);
  flight = omega (arith, tally-waiting flying n refl);
  flight_max = omega arith;
  depth_max = omega arith;
  entered_bound = Entered-waiting n n;
  offered_bound = tt;
  balance = omega (arith, tally-waiting busy n refl);
}

-- With at most 64 workers, after every interleaving of the accept loop and the workers:
-- `queue_depth` is the number of connections in the channel, of those a worker has taken and not
-- yet subtracted, and of the one the accept loop holds; `in_flight` is the number of workers
-- between its two updates; the channel holds at most 256.
pub gauges_agree :
    (n : ℕ) (actions : List Action)
    → n ≤ n_workers
    → let s : Pool = run actions (start n) in
      (s.metrics.queue_depth ≡ (s.metrics.queue + tally undequeued s.workers) + held s.acceptor)
      × (s.metrics.in_flight ≡ tally flying s.workers)
      × (s.metrics.queue ≤ queue_cap)
gauges_agree n actions small =
    let h = run-Sound n actions (start n) small (start-Sound n) in
    (h.depth, h.flight, h.queue_bound)

-- With `n` workers, at most 64, no interleaving raises `in_flight_max` above `n` or
-- `queue_depth_max` above 257 + n, and the gauges themselves stay within the same limits.
pub gauges_bounded :
    (n : ℕ) (actions : List Action)
    → n ≤ n_workers
    → let m : Metrics = (run actions (start n)).metrics in
      (m.in_flight ≤ n)
      × (m.in_flight_max ≤ n)
      × (m.queue_depth ≤ suc (queue_cap + n))
      × (m.queue_depth_max ≤ suc (queue_cap + n))
gauges_bounded n actions small =
    let h = run-Sound n actions (start n) small (start-Sound n) in
    let b = tally_bound (run actions (start n)).workers in
    let a = held_bound (run actions (start n)).acceptor in
    (
      omega (arith, h.flight, b.0, b.1, h.size),
      h.flight_max,
      omega (arith, h.depth, b.0, b.1, h.size, h.queue_bound, a),
      h.depth_max,
    )

-- With at most 64 workers, after every interleaving: the accepted connections, with the one that is
-- sent and not counted, are those in the channel, those that a worker has, and those that completed,
-- failed or panicked, up to a multiple of 2^64.
pub connections_balance :
    (n : ℕ) (actions : List Action)
    → n ≤ n_workers
    → let s : Pool = run actions (start n) in
      (s.metrics.accepted + uncounted s.acceptor) % 2 ^ 64
      ≡ ((s.metrics.queue + tally busy s.workers) + finished s.metrics) % 2 ^ 64
connections_balance n actions small = (run-Sound n actions (start n) small (start-Sound n)).balance
