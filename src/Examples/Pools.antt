-- ===== src/Examples/Pools.antt =====
-- A short interleaving of the accept loop and two workers of enclave/src/main.rs.
use proof_of_observation.Base.{◌+◌, ◌%◌, ◌^◌, ◌≤◌, ◌≡◌, refl, List, [], ◌∷◌, arith}
use proof_of_observation.Pool.{
  Action, accepts, works, panic, Pool, run, start, queue_cap, fetch_add, fetch_sub, bump_max,
}
use proof_of_observation.Pool.Accounts.{tally, busy, undequeued, flying, held, uncounted, finished}
use proof_of_observation.Pool.Interleavings.{gauges_agree, gauges_bounded, connections_balance}

-- A worker takes a connection before the accept loop has counted it.
abbrev interleaving : List Action
interleaving =
    accepts
    ∷ accepts
    ∷ accepts
    ∷ works 1 panic
    ∷ works 1 panic
    ∷ works 1 panic
    ∷ works 1 panic
    ∷ accepts
    ∷ accepts
    ∷ works 1 panic
    ∷ works 1 panic
    ∷ []

abbrev pool : Pool
pool = run interleaving (start 2)

counted :
    (pool.metrics.accepted ≡ 1) × (pool.metrics.in_flight_max ≡ 1) × (pool.metrics.queue_depth ≡ 1)
unfolding run start fetch_add fetch_sub bump_max
counted = (refl, refl, refl)

connections_balance_example :
    (pool.metrics.accepted + uncounted pool.acceptor) % 2 ^ 64
    ≡ ((pool.metrics.queue + tally busy pool.workers) + finished pool.metrics) % 2 ^ 64
connections_balance_example = connections_balance 2 interleaving (omega arith)

gauges_agree_example :
    (pool.metrics.queue_depth
      ≡ (pool.metrics.queue + tally undequeued pool.workers) + held pool.acceptor)
    × (pool.metrics.in_flight ≡ tally flying pool.workers)
    × (pool.metrics.queue ≤ queue_cap)
gauges_agree_example = gauges_agree 2 interleaving (omega arith)

gauges_bounded_example :
    (pool.metrics.in_flight ≤ 2)
    × (pool.metrics.in_flight_max ≤ 2)
    × (pool.metrics.queue_depth ≤ 259)
    × (pool.metrics.queue_depth_max ≤ 259)
gauges_bounded_example = gauges_bounded 2 interleaving (omega arith)
