-- ===== src/Threadpool/Shutdown.antt =====
-- Stopping a pool (src/target/o_pocket/context/threadpool/threadpool.hpp).
use device_broker.Prelude.{arith, ◌≡◌, refl, ◌≢◌, none, some, List, [], ◌∷◌, map, All}
use device_broker.SafeQueue
use device_broker.SafeQueue.{SafeQueue, pop_sync}
use device_broker.Threadpool.{
  Worker, Turn, Threadpool, shutdown_async, worker_turn, work_each_entity, stop_workers_sync,
}

All-exit : (ws : List Worker) → All (λ w. worker_turn w ≡ Turn.exits) (map shutdown_async ws)
unfolding shutdown_async worker_turn
All-exit [] = tt
All-exit (w ∷ ws) = (refl, All-exit ws)

module _ {ℓ} {T : Type ℓ} where
  -- After `stop_workers_sync` has set its flags on a pool that has workers, the wait for a task lets
  -- a worker go without one, the pool unchanged, and every worker that reads its flags leaves its
  -- loop. A worker that was blocked does not read them: nobody notifies it.
  pub stop_workers_join :
      (p : Threadpool T)
      → p.worker_list ≢ []
      → let q = stop_workers_sync p in
        All (λ w. worker_turn w ≡ Turn.exits) q.worker_list × (work_each_entity q ≡ some (none, q))
  unfolding stop_workers_sync work_each_entity pop_sync SafeQueue.stop
  stop_workers_join p h = go p.worker_list refl
    where
      go :
          (ws : List Worker)
          → p.worker_list ≡ ws
          → let q = stop_workers_sync p in
            All (λ w. worker_turn w ≡ Turn.exits) q.worker_list
            × (work_each_entity q ≡ some (none, q))
      go [] e = absurd (h e)
      go (w ∷ ws) e = rw (e, stop_workers_sync) (All-exit (w ∷ ws), ground arith)
