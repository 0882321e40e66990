-- ===== src/Pool/Steps.antt =====
-- Every step of a worker of enclave/src/main.rs keeps the invariant of the worker pool.
use proof_of_observation.Base.{ℕ, suc, ◌+◌, ◌%◌, ◌^◌, ◌≤◌, ◌≡◌, ◌∙◌, some, arith}
use proof_of_observation.Pool.{
  Metrics, Phase, receiving, received, dequeued, entered, handling, handled, left_flight, Ending,
  returned, refused, panic, Acceptor, listening, offered, sending, sent, full, released, Pool,
  get_elem?, set, worker, fetch_add, fetch_sub, bump_max, queue_cap, n_workers,
}
use proof_of_observation.Pool.Accounts.{
  busy, undequeued, flying, held, Entered, finished, Sound, tally-set, length-set, All-set,
  tally_bound,
}

-- What the change of one worker from `p` to `p'`, with the counters from `m` to `m'`, keeps.
pub record Moves (n : ℕ) (p p' : Phase) (m m' : Metrics) : Type 0 where
  queue_bound : m'.queue ≤ queue_cap
  depth : (m'.queue_depth + undequeued p) + m.queue ≡ (m.queue_depth + undequeued p') + m'.queue
  flight : m'.in_flight + flying p ≡ m.in_flight + flying p'
  flight_max : m'.in_flight_max ≤ n
  depth_max : m'.queue_depth_max ≤ suc (queue_cap + n)
  entered_bound : Entered n p'
  accepted : m'.accepted ≡ m.accepted
  balance :
      ((m'.queue + busy p') + finished m') % 2 ^ 64 ≡ ((m.queue + busy p) + finished m) % 2 ^ 64

pub moved :
    (n : ℕ) (s : Pool) (i : ℕ) (p p' : Phase) (m' : Metrics)
    → Sound n s
    → get_elem? s.workers i ≡ some p
    → Moves n p p' s.metrics m'
    → Sound n (record s { metrics = m'; workers = set s.workers i p' })
moved n s i p p' m' h g c =
    let w1 = tally-set undequeued s.workers i p p' g in
    let w2 = tally-set flying s.workers i p p' g in
    let w3 = tally-set busy s.workers i p p' g in
    record {
      size = length-set s.workers i p' ∙ h.size;
      queue_bound = c.queue_bound;
      depth = omega (arith, w1, c.depth, h.depth);
      flight = omega (arith, w2, c.flight, h.flight);
      flight_max = c.flight_max;
      depth_max = c.depth_max;
      entered_bound = All-set (Entered n) s.workers i p' h.entered_bound c.entered_bound;
      offered_bound = h.offered_bound;
      balance = omega (arith, w3, c.accepted, c.balance, h.balance);
    }

-- The gauges are far from their wrap: they count connections that the pool holds.
pub record Room (n : ℕ) (p : Phase) (m : Metrics) : Type 0 where
  small : n ≤ n_workers
  depth_low : undequeued p ≤ m.queue_depth
  depth_high : m.queue_depth ≤ suc (queue_cap + n)
  flight_low : flying p ≤ m.in_flight
  flight_high : m.in_flight + busy p ≤ n + flying p

pub held_bound : (a : Acceptor) → held a ≤ 1
held_bound listening = omega arith
held_bound (offered q) = omega arith
held_bound sending = omega arith
held_bound sent = omega arith
held_bound full = omega arith
held_bound released = omega arith

pub room :
    (n : ℕ) (s : Pool) (i : ℕ) (p : Phase)
    → n ≤ n_workers
    → Sound n s
    → get_elem? s.workers i ≡ some p
    → Room n p s.metrics
room n s i p small h g =
    let w1 = tally-set undequeued s.workers i p receiving g in
    let w2 = tally-set flying s.workers i p receiving g in
    let w3 = tally-set busy s.workers i p receiving g in
    let b = tally_bound s.workers in
    let b' = tally_bound (set s.workers i receiving) in
    let hb = held_bound s.acceptor in
    record {
      small = small;
      depth_low = omega (arith, w1, h.depth);
      depth_high = omega (arith, b.0, b.1, h.depth, h.size, h.queue_bound, hb);
      flight_low = omega (arith, w2, h.flight);
      flight_high = omega (arith, w2, w3, b'.0, b.1, h.flight, h.size);
    }

-- Each step of a worker is such a change.
pub worker-Moves :
    (n : ℕ) (e : Ending) (p : Phase) (m : Metrics)
    → Room n p m
    → m.queue ≤ queue_cap
    → m.in_flight_max ≤ n
    → m.queue_depth_max ≤ suc (queue_cap + n)
    → Entered n p
    → Moves n p (worker e p m).0 m (worker e p m).1
unfolding worker fetch_add fetch_sub bump_max
worker-Moves n e receiving m r q f d b = record {
  queue_bound = ground arith;
  depth = ground arith;
  flight = ground arith;
  flight_max = ground arith;
  depth_max = ground arith;
  entered_bound = ground arith;
  accepted = ground arith;
  balance = ground arith;
}
worker-Moves n e received m r q f d b = record {
  queue_bound = omega arith;
  depth = omega arith;
  flight = omega arith;
  flight_max = omega arith;
  depth_max = omega arith;
  entered_bound = tt;
  accepted = omega arith;
  balance = omega arith;
}
worker-Moves n e dequeued m r q f d b = record {
  queue_bound = omega arith;
  depth = omega arith;
  flight = omega arith;
  flight_max = omega arith;
  depth_max = omega arith;
  entered_bound = omega arith;
  accepted = omega arith;
  balance = omega arith;
}
worker-Moves n e (entered now) m r q f d b = record {
  queue_bound = omega arith;
  depth = omega arith;
  flight = omega arith;
  flight_max = ground arith;
  depth_max = omega arith;
  entered_bound = tt;
  accepted = omega arith;
  balance = omega arith;
}
worker-Moves n e handling m r q f d b = record {
  queue_bound = omega arith;
  depth = omega arith;
  flight = omega arith;
  flight_max = omega arith;
  depth_max = omega arith;
  entered_bound = tt;
  accepted = omega arith;
  balance = omega arith;
}
worker-Moves n e (handled how) m r q f d b = record {
  queue_bound = omega arith;
  depth = omega arith;
  flight = omega arith;
  flight_max = omega arith;
  depth_max = omega arith;
  entered_bound = tt;
  accepted = omega arith;
  balance = omega arith;
}
worker-Moves n e (left_flight returned) m r q f d b = record {
  queue_bound = omega arith;
  depth = omega arith;
  flight = omega arith;
  flight_max = omega arith;
  depth_max = omega arith;
  entered_bound = tt;
  accepted = omega arith;
  balance = omega arith;
}
worker-Moves n e (left_flight refused) m r q f d b = record {
  queue_bound = omega arith;
  depth = omega arith;
  flight = omega arith;
  flight_max = omega arith;
  depth_max = omega arith;
  entered_bound = tt;
  accepted = omega arith;
  balance = omega arith;
}
worker-Moves n e (left_flight panic) m r q f d b = record {
  queue_bound = omega arith;
  depth = omega arith;
  flight = omega arith;
  flight_max = omega arith;
  depth_max = omega arith;
  entered_bound = tt;
  accepted = omega arith;
  balance = omega arith;
}
