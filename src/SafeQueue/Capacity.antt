-- ===== src/SafeQueue/Capacity.antt =====
-- How long a SafeQueue can get (src/target/o_pocket/context/threadpool/safe_queue.hpp).
use device_broker.Prelude.{ℕ, suc, ◌≤◌, ◌≡◌, Bool, max, List, [], ◌∷◌, arith, length, length-append}
use device_broker.SafeQueue.{
  SafeQueue, push_sync, try_push, push_async, pop_sync, try_pop, pop_async, pop_sync_list,
  try_pop_list, pop_async_list, insert_before, insert_sync, try_insert, insert_async, stop, clear,
  reset, change_limit_len_max,
}
use device_broker.SafeQueue.Fifo.{FifoStep}
use device_broker.SafeQueue.Contents.{Step, Reach}

module _ {ℓ} {A : Type ℓ} where
  pub length-insert_before :
      (p : A → Bool) (v : A) (xs : List A) → length (insert_before p v xs) ≡ suc (length xs)
  unfolding insert_before
  length-insert_before p v [] = omega arith
  length-insert_before p v (x ∷ xs) = ground (arith, length-insert_before p v xs)

  abbrev Fits : SafeQueue A → SafeQueue A → Type 0
  Fits q q' = length q'.inner_queue ≤ max (length q.inner_queue) q.limit_len_max

  fifo-Fits : {q q' : SafeQueue A} {ns os : List A} → FifoStep q ns os q' → Fits q q'
  unfolding push_sync try_push push_async pop_sync try_pop pop_async pop_sync_list try_pop_list
      pop_async_list clear reset stop change_limit_len_max
  fifo-Fits (FifoStep.pushed_sync v q s e) = ground (arith, length-append q.inner_queue (v ∷ []))
  fifo-Fits (FifoStep.pushed_try v q e) = ground (arith, length-append q.inner_queue (v ∷ []))
  fifo-Fits (FifoStep.pushed_async v q e) = ground (arith, length-append q.inner_queue (v ∷ []))
  fifo-Fits (FifoStep.popped_sync out q s e) = ground arith
  fifo-Fits (FifoStep.popped_try out q e) = ground arith
  fifo-Fits (FifoStep.popped_async out q e) = ground arith
  fifo-Fits (FifoStep.popped_sync_list out q s e) = ground arith
  fifo-Fits (FifoStep.popped_try_list out q e) = ground arith
  fifo-Fits (FifoStep.popped_async_list out q e) = ground arith
  fifo-Fits (FifoStep.cleared q) = omega arith
  fifo-Fits (FifoStep.was_reset q) = omega arith
  fifo-Fits (FifoStep.stopped q) = omega arith
  fifo-Fits (FifoStep.limited n q) = omega arith

  -- A completed operation makes a queue no longer than its limit, unless it was longer before.
  pub step-Fits :
      {q q' : SafeQueue A} {ns os : List A}
      → Step q ns os q'
      → length q'.inner_queue ≤ max (length q.inner_queue) q.limit_len_max
  unfolding insert_sync try_insert insert_async
  step-Fits (Step.fifo st) = fifo-Fits st
  step-Fits (Step.inserted_sync p v q s e) = ground (arith, length-insert_before p v q.inner_queue)
  step-Fits (Step.inserted_try p v q e) = ground (arith, length-insert_before p v q.inner_queue)
  step-Fits (Step.inserted_async p v q e) = ground (arith, length-insert_before p v q.inner_queue)

  -- The largest limit that was in force during a history, or the length at its start.
  abbrev pub peak : {q q' : SafeQueue A} {ins outs : List A} → Reach q ins outs q' → ℕ
  peak {q} Reach.here = max (length q.inner_queue) q.limit_len_max
  peak (Reach.next {s} h st) = max (peak h) s.limit_len_max
