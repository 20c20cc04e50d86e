-- ===== src/Threadpool/Monitored.antt =====
-- Which tasks the monitor of src/target/o_pocket/context/threadpool/threadpool.hpp looks at, over any
-- history, and what its timers say.
use mathlib.Core.List.{append-nil, append_assoc, perm_middle, Perm}
use mathlib.Core.List.Perm
use device_broker.Prelude.{
  ℕ, ◌≡◌, refl, Bool, true, false, List, [], ◌||◌, ltb, length, All, ◌∷◌, ◌++◌, ℤ, pos, arith, inl,
  inr, Bool-cases,
}
use device_broker.SafeQueue.{SafeQueue, push_async, pop_async_list}
use device_broker.Threadpool.Monitor.{
  LoopMonitor, make_timer, make_monitor, walk, monitor_round, duration_ms, execute_task,
  get_end_elapsed_ms,
}

module _ {A : Type 0} where
  -- A history: the tasks that entered the queue, those that the monitor was done with, and the state.
  pub data Watched (limit : ℕ) : List A → List A → LoopMonitor A → Type 0 where
    launched : Watched limit [] [] (make_monitor limit)
    registered :
        {ins outs : List A} {m : LoopMonitor A} (x : A) (q : SafeQueue A)
        → Watched limit ins outs m
        → push_async x m.loop_task_info_list ≡ (pos 0, q)
        → Watched limit (ins ++ x ∷ []) outs (record m { loop_task_info_list = q })
    looked :
        {ins outs : List A} {m : LoopMonitor A} (monitor : A → Bool)
        → Watched limit ins outs m
        → Watched limit ins (outs ++ (monitor_round monitor m).0) (monitor_round monitor m).1

  walk-perm :
      (monitor : A → Bool) (xs : List A) → Perm xs ((walk monitor xs).0 ++ (walk monitor xs).1)
  unfolding walk
  walk-perm monitor [] = Perm.refl []
  walk-perm monitor (x ∷ xs) = elim (Bool-cases (monitor x)) [
    | inl e ↦ rw e (Perm.cons x (walk-perm monitor xs))
    | inr e ↦ rw e (
        Perm.trans (Perm.cons x (walk-perm monitor xs))
          (Perm.symm (perm_middle (walk monitor xs).0 (walk monitor xs).1)))
  ]

  round-perm :
      (monitor : A → Bool) (m : LoopMonitor A)
      → let r = monitor_round monitor m in
        Perm
          (m.cur_task_list ++ m.loop_task_info_list.inner_queue)
          (r.0 ++ (r.1.cur_task_list ++ r.1.loop_task_info_list.inner_queue))
  unfolding monitor_round pop_async_list
  round-perm monitor m =
      let q : SafeQueue A = m.loop_task_info_list in
      elim (Bool-cases (q.is_stop_flag || ltb (length q.inner_queue) 1)) [
        | inl e ↦ rw e (
            rw
              (
                append-nil,
                ← append_assoc (walk monitor m.cur_task_list).0 (walk monitor m.cur_task_list).1
                    q.inner_queue,
              )
              (Perm.append (walk-perm monitor m.cur_task_list) (Perm.refl q.inner_queue)))
        | inr e ↦ rw e (rw append-nil (walk-perm monitor (m.cur_task_list ++ q.inner_queue)))
      ]

  -- Those that were registered are, as a multiset, those that the monitor was done with, those that it
  -- still looks at, and those that wait in the queue.
  pub Watched-perm :
      {limit : ℕ} {ins outs : List A} {m : LoopMonitor A}
      → Watched limit ins outs m
      → Perm ins (outs ++ (m.cur_task_list ++ m.loop_task_info_list.inner_queue))
  unfolding make_monitor push_async
  Watched-perm launched = Perm.refl []
  Watched-perm (registered {ins} {outs} {m} x q w e) =
      let queue = m.loop_task_info_list.inner_queue in
      let same : q.inner_queue ≡ queue ++ x ∷ [] = ground (arith, e) in
      rw
        (
          same,
          ← append_assoc m.cur_task_list queue (x ∷ []),
          ← append_assoc outs (m.cur_task_list ++ queue) (x ∷ []),
        )
        (Perm.append (Watched-perm w) (Perm.refl (x ∷ [])))
  Watched-perm (looked {ins} {outs} {m} monitor w) =
      let r = monitor_round monitor m in
      rw (append_assoc outs r.0 (r.1.cur_task_list ++ r.1.loop_task_info_list.inner_queue))
        (Perm.trans (Watched-perm w) (Perm.append (Perm.refl outs) (round-perm monitor m)))

  walk-All :
      (monitor : A → Bool) (xs : List A)
      → All (λ x. monitor x ≡ true) (walk monitor xs).0
        × All (λ x. monitor x ≡ false) (walk monitor xs).1
  unfolding walk
  walk-All monitor [] = (tt, tt)
  walk-All monitor (x ∷ xs) = elim (Bool-cases (monitor x)) [
    | inl e ↦ rw e ((e, (walk-All monitor xs).0), (walk-All monitor xs).1)
    | inr e ↦ rw e ((walk-All monitor xs).0, (e, (walk-All monitor xs).1))
  ]

  pop_async_list-empty :
      (xs : List A) (limit : ℕ)
      → (pop_async_list []
          (record { inner_queue = xs; is_stop_flag = false; limit_len_max = limit })).2.inner_queue
        ≡ []
  unfolding pop_async_list
  pop_async_list-empty [] limit = refl
  pop_async_list-empty (x ∷ xs) limit = ground arith

  -- A round over a queue that is not stopped takes every registered task, is done with tasks that the
  -- monitor accepts only, and keeps those only that it does not.
  pub monitor_round-All :
      (monitor : A → Bool) (m : LoopMonitor A)
      → m.loop_task_info_list.is_stop_flag ≡ false
      → let r = monitor_round monitor m in
        (r.1.loop_task_info_list.inner_queue ≡ [])
        × All (λ x. monitor x ≡ true) r.0
        × All (λ x. monitor x ≡ false) r.1.cur_task_list
  unfolding monitor_round pop_async_list
  monitor_round-All monitor m running =
      let split =
        walk-All monitor (m.cur_task_list ++ (pop_async_list [] m.loop_task_info_list).1) in
      (
        rw running (
            pop_async_list-empty m.loop_task_info_list.inner_queue
              m.loop_task_info_list.limit_len_max),
        split.0,
        split.1,
      )

  round-All :
      (monitor : A → Bool) (m : LoopMonitor A)
      → let r = monitor_round monitor m in
        All (λ x. monitor x ≡ true) r.0 × All (λ x. monitor x ≡ false) r.1.cur_task_list
  unfolding monitor_round pop_async_list
  round-All monitor m =
      walk-All monitor (m.cur_task_list ++ (pop_async_list [] m.loop_task_info_list).1)

  -- After any history of registrations and rounds, whatever the monitor answered in each, one more round
  -- loses no task and copies none: those that were registered are, as a multiset, those that earlier rounds
  -- were done with, those that this round is done with, those that are still looked at, and those that
  -- wait in the queue; and this round is done with tasks only that its monitor accepts, and goes on with
  -- tasks only that it does not.
  pub round-Watched :
      {limit : ℕ} {ins outs : List A} {m : LoopMonitor A} (monitor : A → Bool)
      → Watched limit ins outs m
      → let (done, later) = monitor_round monitor m in
        Perm ins ((outs ++ done) ++ (later.cur_task_list ++ later.loop_task_info_list.inner_queue))
        × All (λ x. monitor x ≡ true) done
        × All (λ x. monitor x ≡ false) later.cur_task_list
  round-Watched {m = m} monitor w =
      let sorted = round-All monitor m in (Watched-perm (looked monitor w), sorted.0, sorted.1)

-- A task that runs once from t0 to t1, and one that is then run again, reports the milliseconds from t0
-- to t1, whenever it is asked; before it ran it reports 0.
pub execute_task_lem :
    (made t0 t1 t2 t3 : ℕ) (garbage : ℤ)
    → let t = make_timer made garbage in
      (get_end_elapsed_ms t ≡ pos 0)
      × (get_end_elapsed_ms (execute_task t0 t1 t) ≡ duration_ms t0 t1)
      × (execute_task t2 t3 (execute_task t0 t1 t) ≡ execute_task t0 t1 t)
unfolding make_timer execute_task get_end_elapsed_ms
execute_task_lem made t0 t1 t2 t3 garbage = (refl, refl, refl)
