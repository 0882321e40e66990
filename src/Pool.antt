-- ===== src/Pool.antt =====
-- The worker pool of enclave/src/main.rs: the `Metrics` counters, `bump_max`, the loop of `worker`
-- and the accept loop of `main`, as one thread that accepts and a list of workers. Each call on an
-- atomic, on the channel or of `handle` is one step, and an `Action` says which thread takes the
-- next one, so that a list of actions is an interleaving of the threads.
pub mod Accounts
pub mod Steps
pub mod Interleavings
use proof_of_observation.Base.{
  ℕ, zero, suc, ◌+◌, ◌-◌, ◌%◌, ◌^◌, Option, none, some, List, [], ◌∷◌, ltb, if◌then◌else◌,
}

abbrev pub n_workers : ℕ
n_workers = 64

abbrev pub queue_cap : ℕ
queue_cap = 256

-- `fetch_add(1)` and `fetch_sub(1)` of a 64-bit atomic wrap.
unfoldable pub fetch_add : ℕ → ℕ
fetch_add x = (x + 1) % 2 ^ 64

unfoldable pub fetch_sub : ℕ → ℕ
fetch_sub x = (x + (2 ^ 64 - 1)) % 2 ^ 64

-- The counters that the loops change, beside `queue`, the connections in the channel.
pub record Metrics : Type 0 where
  pub accepted : ℕ
  pub shed : ℕ
  pub completed : ℕ
  pub failed : ℕ
  pub panicked : ℕ
  pub in_flight : ℕ
  pub in_flight_max : ℕ
  pub queue_depth : ℕ
  pub queue_depth_max : ℕ
  pub queue : ℕ

-- `bump_max`: the loop ends with the larger of the two in `max`.
unfoldable pub bump_max : ℕ → ℕ → ℕ
bump_max cur max = if ltb max cur then cur else max

-- How `handle` ends: `Ok(Ok(()))`, `Ok(Err(e))` or a panic that `catch_unwind` caught.
pub data Ending : Type 0 where
  returned refused panic : Ending

-- Where a worker stands in its loop: before `recv`, before `queue_depth.fetch_sub`, before
-- `in_flight.fetch_add`, before `bump_max(now, …)`, in `handle`, before `in_flight.fetch_sub`, and
-- before the counter of its ending.
pub data Phase : Type 0 where
  receiving received dequeued : Phase
  entered : ℕ → Phase
  handling : Phase
  handled : Ending → Phase
  left_flight : Ending → Phase

abbrev pub count_ending : Ending → Metrics → Metrics
count_ending returned m = record m { completed = fetch_add m.completed }
count_ending refused m = record m { failed = fetch_add m.failed }
count_ending panic m = record m { panicked = fetch_add m.panicked }

-- One step of a worker; `recv` blocks on an empty channel.
unfoldable pub worker : Ending → Phase → Metrics → Phase × Metrics
worker e receiving m = elim m.queue [
  | zero ↦ (receiving, m)
  | suc q ↦ (received, record m { queue = q })
]
worker e received m = (dequeued, record m { queue_depth = fetch_sub m.queue_depth })
worker e dequeued m =
    (entered (fetch_add m.in_flight), record m { in_flight = fetch_add m.in_flight })
worker e (entered now) m = (handling, record m { in_flight_max = bump_max now m.in_flight_max })
worker e handling m = (handled e, m)
worker e (handled how) m = (left_flight how, record m { in_flight = fetch_sub m.in_flight })
worker e (left_flight how) m = (receiving, count_ending how m)

-- Where the accept loop stands: before `queue_depth.fetch_add`, before `bump_max(q, …)`, before
-- `try_send`, before `accepted.fetch_add`, and on a full channel before `queue_depth.fetch_sub` and
-- before `shed.fetch_add`.
pub data Acceptor : Type 0 where
  listening : Acceptor
  offered : ℕ → Acceptor
  sending sent full released : Acceptor

-- One step of the accept loop, when a connection has come.
unfoldable pub accept : Acceptor → Metrics → Acceptor × Metrics
accept listening m =
    (offered (fetch_add m.queue_depth), record m { queue_depth = fetch_add m.queue_depth })
accept (offered q) m = (sending, record m { queue_depth_max = bump_max q m.queue_depth_max })
accept sending m =
    if ltb m.queue queue_cap then (sent, record m { queue = suc m.queue }) else (full, m)
accept sent m = (listening, record m { accepted = fetch_add m.accepted })
accept full m = (released, record m { queue_depth = fetch_sub m.queue_depth })
accept released m = (listening, record m { shed = fetch_add m.shed })

pub record Pool : Type 0 where
  pub metrics : Metrics
  pub acceptor : Acceptor
  pub workers : List Phase

pub data Action : Type 0 where
  accepts : Action
  works : ℕ → Ending → Action

unfoldable pub get_elem? : List Phase → ℕ → Option Phase
get_elem? [] i = none
get_elem? (p ∷ ps) zero = some p
get_elem? (p ∷ ps) (suc i) = get_elem? ps i

unfoldable pub set : List Phase → ℕ → Phase → List Phase
set [] i q = []
set (p ∷ ps) zero q = q ∷ ps
set (p ∷ ps) (suc i) q = p ∷ set ps i q

unfoldable pub works_step : ℕ → Ending → Pool → Option Phase → Pool
unfolding worker set
works_step i e s none = s
works_step i e s (some p) =
    let (p', m') = worker e p s.metrics in record s { metrics = m'; workers = set s.workers i p' }

unfoldable pub step : Action → Pool → Pool
unfolding accept works_step get_elem?
step accepts s =
    let (a', m') = accept s.acceptor s.metrics in record s { metrics = m'; acceptor = a' }
step (works i e) s = works_step i e s (get_elem? s.workers i)

unfoldable pub run : List Action → Pool → Pool
unfolding step
run [] s = s
run (a ∷ later) s = run later (step a s)

-- `main` before the loop: zero counters and `n` workers that wait.
abbrev waiting : ℕ → List Phase
waiting zero = []
waiting (suc n) = receiving ∷ waiting n

abbrev no_metrics : Metrics
no_metrics = record {
  accepted = 0;
  shed = 0;
  completed = 0;
  failed = 0;
  panicked = 0;
  in_flight = 0;
  in_flight_max = 0;
  queue_depth = 0;
  queue_depth_max = 0;
  queue = 0;
}

unfoldable pub start : ℕ → Pool
start n = record { metrics = no_metrics; acceptor = listening; workers = waiting n }
