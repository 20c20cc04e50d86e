-- ===== src/SafeQueue/Fifo.antt =====
-- What goes in and what comes out of a SafeQueue over any interleaving of its operations
-- (src/target/o_pocket/context/threadpool/safe_queue.hpp).
use mathlib.Core.List.{append-nil, append_assoc}
use device_broker.Prelude.{ℕ, ◌≡◌, refl, sym, ap, ◌∙◌, false, some, List, [], ◌∷◌, ◌++◌, pos, arith}
use device_broker.SafeQueue.{
  SafeQueue, push_sync, try_push, push_async, pop_sync, try_pop, pop_async, pop_sync_list,
  try_pop_list, pop_async_list, stop, clear, reset, change_limit_len_max,
}

module _ {ℓ} {A : Type ℓ} where
  -- One completed operation: the state before, what entered, what left, the state after.
  -- A push or pop that answers an error, or that a stop has woken, moves nothing.
  pub data FifoStep : SafeQueue A → List A → List A → SafeQueue A → Type ℓ where
    pushed_sync :
        (v : A) (q : SafeQueue A) {q' : SafeQueue A}
        → q.is_stop_flag ≡ false
        → push_sync v q ≡ some q'
        → FifoStep q (v ∷ []) [] q'
    pushed_try :
        (v : A) (q : SafeQueue A) {q' : SafeQueue A}
        → try_push v q ≡ (pos 0, q')
        → FifoStep q (v ∷ []) [] q'
    pushed_async :
        (v : A) (q : SafeQueue A) {q' : SafeQueue A}
        → push_async v q ≡ (pos 0, q')
        → FifoStep q (v ∷ []) [] q'
    popped_sync :
        (out : A) (q : SafeQueue A) {x : A} {q' : SafeQueue A}
        → q.is_stop_flag ≡ false
        → pop_sync out q ≡ some (x, q')
        → FifoStep q [] (x ∷ []) q'
    popped_try :
        (out : A) (q : SafeQueue A) {x : A} {q' : SafeQueue A}
        → try_pop out q ≡ (pos 0, x, q')
        → FifoStep q [] (x ∷ []) q'
    popped_async :
        (out : A) (q : SafeQueue A) {x : A} {q' : SafeQueue A}
        → pop_async out q ≡ (pos 0, x, q')
        → FifoStep q [] (x ∷ []) q'
    popped_sync_list :
        (out : List A) (q : SafeQueue A) {xs : List A} {q' : SafeQueue A}
        → q.is_stop_flag ≡ false
        → pop_sync_list out q ≡ some (xs, q')
        → FifoStep q [] xs q'
    popped_try_list :
        (out : List A) (q : SafeQueue A) {xs : List A} {q' : SafeQueue A}
        → try_pop_list out q ≡ (pos 0, xs, q')
        → FifoStep q [] xs q'
    popped_async_list :
        (out : List A) (q : SafeQueue A) {xs : List A} {q' : SafeQueue A}
        → pop_async_list out q ≡ (pos 0, xs, q')
        → FifoStep q [] xs q'
    cleared : (q : SafeQueue A) → FifoStep q [] q.inner_queue (clear q).1
    was_reset : (q : SafeQueue A) → FifoStep q [] q.inner_queue (reset q).1
    stopped : (q : SafeQueue A) → FifoStep q [] [] (stop q)
    limited : (n : ℕ) (q : SafeQueue A) → FifoStep q [] [] (change_limit_len_max n q)

  pub data FifoReach (q : SafeQueue A) : List A → List A → SafeQueue A → Type ℓ where
    here : FifoReach q [] [] q
    next :
        {ins outs ns os : List A} {r s : SafeQueue A}
        → FifoReach q ins outs r
        → FifoStep r ns os s
        → FifoReach q (ins ++ ns) (outs ++ os) s

  pub step-fifo :
      {q q' : SafeQueue A} {ns os : List A}
      → FifoStep q ns os q'
      → q.inner_queue ++ ns ≡ os ++ q'.inner_queue
  unfolding push_sync try_push push_async pop_sync try_pop pop_async pop_sync_list try_pop_list
      pop_async_list clear reset stop change_limit_len_max
  step-fifo (pushed_sync v q s e) = ground arith
  step-fifo (pushed_try v q e) = ground arith
  step-fifo (pushed_async v q e) = ground arith
  step-fifo (popped_sync out q s e) = ground (arith, append-nil q.inner_queue)
  step-fifo (popped_try out q e) = ground (arith, append-nil q.inner_queue)
  step-fifo (popped_async out q e) = ground (arith, append-nil q.inner_queue)
  step-fifo (popped_sync_list out q s e) = ground (arith, append-nil q.inner_queue)
  step-fifo (popped_try_list out q e) = ground (arith, append-nil q.inner_queue)
  step-fifo (popped_async_list out q e) = ground (arith, append-nil q.inner_queue)
  step-fifo (cleared q) = refl
  step-fifo (was_reset q) = refl
  step-fifo (stopped q) = append-nil q.inner_queue
  step-fifo (limited n q) = append-nil q.inner_queue

  -- First in, first out: over any history of pushes, pops, list pops, clears, resets, stops and
  -- changes of the limit, what left followed by what is still queued is what was queued at the
  -- start followed by what entered, in order.
  pub FifoReach-fifo :
      {q q' : SafeQueue A} {ins outs : List A}
      → FifoReach q ins outs q'
      → q.inner_queue ++ ins ≡ outs ++ q'.inner_queue
  FifoReach-fifo {q} here = append-nil q.inner_queue
  FifoReach-fifo {q} (next {ins} {outs} {ns} {os} {r} {s} h st) =
      sym (append_assoc q.inner_queue ins ns)
      ∙ ap (λ l. l ++ ns) (FifoReach-fifo h)
      ∙ append_assoc outs r.inner_queue ns
      ∙ ap (λ l. outs ++ l) (step-fifo st)
      ∙ sym (append_assoc outs os s.inner_queue)
