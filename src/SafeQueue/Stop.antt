-- ===== src/SafeQueue/Stop.antt =====
-- What a stopped SafeQueue does (src/target/o_pocket/context/threadpool/safe_queue.hpp).
use device_broker.Prelude.{◌≡◌, Bool, some, List, neg, arith}
use device_broker.SafeQueue.{
  SafeQueue, push_sync, try_push, push_async, pop_sync, try_pop, pop_async, pop_sync_list,
  try_pop_list, pop_async_list, insert_sync, try_insert, insert_async, stop,
}

module _ {ℓ} {A : Type ℓ} where
  -- On a stopped queue no operation waits and none moves an item: the blocking ones return at
  -- once, the timed ones answer -2, the others -1, and the caller's variable keeps its value.
  pub stop_releases :
      (p : A → Bool) (v out : A) (outs : List A) (q : SafeQueue A)
      → let s = stop q in
        (push_sync v s ≡ some s)
        × (insert_sync p v s ≡ some s)
        × (pop_sync out s ≡ some (out, s))
        × (pop_sync_list outs s ≡ some (outs, s))
        × (try_push v s ≡ (neg 2, s))
        × (try_insert p v s ≡ (neg 2, s))
        × (try_pop out s ≡ (neg 2, out, s))
        × (try_pop_list outs s ≡ (neg 2, outs, s))
        × (push_async v s ≡ (neg 1, s))
        × (insert_async p v s ≡ (neg 1, s))
        × (pop_async out s ≡ (neg 1, out, s))
        × (pop_async_list outs s ≡ (neg 1, outs, s))
  unfolding push_sync try_push push_async pop_sync try_pop pop_async pop_sync_list try_pop_list
      pop_async_list insert_sync try_insert insert_async stop
  stop_releases p v out outs q = ground arith
