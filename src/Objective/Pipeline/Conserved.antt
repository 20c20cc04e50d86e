-- ===== src/Objective/Pipeline/Conserved.antt =====
-- No message is lost between the pools
-- (src/target/o_pocket/context/logic/objecitve/logic_impl_http_service_objective.cpp).
use std.Path.{subst}
use device_broker.Prelude.{
  ℕ, ◌+◌, ◌≡◌, refl, sym, String, Bool, true, false, Option, none, some, List, [], ◌∷◌, ◌++◌, ℤ,
  length, length-append, arith, inl, inr, Bool-cases,
}
use device_broker.Requests.{RabbitmqMsgTaskInfo}
use device_broker.SafeQueue.{insert_before, insert_sync, pop_sync}
use device_broker.SafeQueue
use device_broker.Threadpool.{
  Threadpool, TaskTuple, not_before, enqueue_task_sync, work_each_entity, start_workers,
}
use device_broker.Threadpool
use device_broker.Objective.{Entity, download, run, upload, Manager, call_entity}
use device_broker.Objective.Accounting.{entity-Accounts, message, successor}
use device_broker.Objective.Accounting
use device_broker.Objective.Pipeline.{
  Hand, calls, hands, Pipeline, Step, Reach, handed, ended_by, started,
}

abbrev pub tally : Bool → ℕ
tally true = 1
tally false = 0

module _ (p : RabbitmqMsgTaskInfo → Bool) where
  -- How many of some messages pass the test, of those that are queued, and of those that are held.
  abbrev pub count : List RabbitmqMsgTaskInfo → ℕ
  count [] = 0
  count (x ∷ xs) = tally (p x) + count xs

  abbrev pub in_task : Option Entity → ℕ
  in_task none = 0
  in_task (some e) = tally (p (message e))

  abbrev pub in_tasks : List (TaskTuple Entity) → ℕ
  in_tasks [] = 0
  in_tasks (t ∷ ts) = in_task t.task + in_tasks ts

  abbrev pub queued : Threadpool Entity → ℕ
  queued q = in_tasks q.task_queue.inner_queue

  abbrev pub held : Option Hand → ℕ
  held none = 0
  held (some (calls e)) = tally (p (message e))
  held (some (hands e)) = tally (p (message e))

  count-append : (xs ys : List RabbitmqMsgTaskInfo) → count (xs ++ ys) ≡ count xs + count ys
  count-append [] ys = omega arith
  count-append (x ∷ xs) ys = omega (arith, count-append xs ys)

  in_tasks-insert_before :
      (q : TaskTuple Entity → Bool) (v : TaskTuple Entity) (ts : List (TaskTuple Entity))
      → in_tasks (insert_before q v ts) ≡ in_task v.task + in_tasks ts
  unfolding insert_before
  in_tasks-insert_before q v [] = refl
  in_tasks-insert_before q v (t ∷ ts) = elim (Bool-cases (q t)) [
    | inl found ↦ rw found refl
    | inr later ↦ rw later (omega (arith, in_tasks-insert_before q v ts))
  ]

  -- A pool that has not been stopped gains one task by an enqueue, and loses the one taken.
  enqueue_counts :
      (e : Entity) (n : ℤ) (tag : String) (r : Threadpool Entity) {q : Threadpool Entity}
      → r.task_queue.is_stop_flag ≡ false
      → enqueue_task_sync e n tag r ≡ some q
      → (queued q ≡ tally (p (message e)) + queued r) × (q.task_queue.is_stop_flag ≡ false)
  unfolding enqueue_task_sync insert_sync
  enqueue_counts e n tag r s h = ground (
    arith,
    in_tasks-insert_before (not_before n) (record { task = some e; priority = n; tag = tag })
        r.task_queue.inner_queue,
  )

  work_counts :
      (r : Threadpool Entity) {e : Entity} {q : Threadpool Entity}
      → r.task_queue.is_stop_flag ≡ false
      → work_each_entity r ≡ some (some e, q)
      → (queued r ≡ tally (p (message e)) + queued q) × (q.task_queue.is_stop_flag ≡ false)
  unfolding work_each_entity pop_sync
  work_counts r s h = ground arith

  -- What a call ends and what it hands on.
  Kept : Entity → Option Entity → Type 0
  Kept e f =
      (count (ended_by e f) + held (handed f) ≡ tally (p (message e)))
      × (length (ended_by e f) ≡ Accounting.ended f)

  none-Kept : (e : Entity) → Kept e none
  unfolding Kept
  none-Kept e = (omega arith, refl)

  successor-Kept : (e : Entity) → Kept e (successor e)
  unfolding Kept
  successor-Kept (download info) = (omega arith, refl)
  successor-Kept (run info) = (omega arith, refl)
  successor-Kept (upload info) = (omega arith, refl)

  call_counts :
      (answers : ℕ → ℤ) (e : Entity) (m : Manager)
      → let o = call_entity answers e m in
        (count (ended_by e o.follow) + held (handed o.follow) ≡ tally (p (message e)))
        × (o.manager.g_task_end ≡ m.g_task_end + length (ended_by e o.follow))
  unfolding Kept
  call_counts answers e m =
      let (r, sent, about, at, counted, how) = entity-Accounts answers e m in
      let kept : Kept e (call_entity answers e m).follow = elim how [
        | inl (bad, msg, f, u) ↦ subst (Kept e) (sym f) (none-Kept e)
        | inr (ok, msg, f, u) ↦ subst (Kept e) (sym f) (successor-Kept e)
      ] in
      (kept.0, omega (arith, counted, kept.1))

  record Conserved (s : Pipeline) : Type 0 where
    down_open : s.down.task_queue.is_stop_flag ≡ false
    run_open : s.run.task_queue.is_stop_flag ≡ false
    counted : length s.ended ≡ s.manager.g_task_end
    total :
        count s.accepted
        ≡ count s.ended + queued s.down + queued s.run + held s.down_hand + held s.run_hand

  step-Conserved : {s t : Pipeline} → Step s t → Conserved s → Conserved t
  step-Conserved {s} (Step.posts info tag e f) v =
      ground (arith, enqueue_counts _ _ _ s.down v.down_open e, count-append s.accepted (info ∷ []))
  step-Conserved {s} (Step.down_takes h e f) v = ground (arith, work_counts s.down v.down_open e)
  step-Conserved {s} (Step.down_calls answers {e} h f) v =
      let o = call_entity answers e s.manager in
      ground (
        arith,
        call_counts answers e s.manager,
        count-append s.ended (ended_by e o.follow),
        length-append s.ended (ended_by e o.follow),
      )
  step-Conserved {s} (Step.down_hands_on tag h e f) v =
      ground (arith, enqueue_counts _ _ _ s.run v.run_open e)
  step-Conserved {s} (Step.run_takes h e f) v = ground (arith, work_counts s.run v.run_open e)
  step-Conserved {s} (Step.run_calls answers {e} h f) v =
      let o = call_entity answers e s.manager in
      ground (
        arith,
        call_counts answers e s.manager,
        count-append s.ended (ended_by e o.follow),
        length-append s.ended (ended_by e o.follow),
      )
  step-Conserved {s} (Step.run_hands_on tag h e f) v =
      ground (arith, enqueue_counts _ _ _ s.run v.run_open e)

  Reach-Conserved : {s t : Pipeline} → Conserved s → Reach s t → Conserved t
  Reach-Conserved v Reach.here = v
  Reach-Conserved v (Reach.next r st) = step-Conserved st (Reach-Conserved v r)

  started-Conserved : (now : ℕ) → Conserved (started now)
  unfolding start_workers Threadpool.make SafeQueue.make
  started-Conserved now = record { down_open = refl; run_open = refl; counted = refl; total = refl }

  -- However the poll and the two workers interleave, no message is lost or doubled: whatever test is
  -- put to the messages, as many of those that the poll has enqueued pass it as of those that have
  -- ended, those whose tasks wait in the two queues and those in the hands of the two workers
  -- together; and as many messages have ended as are counted as ended.
  pub messages_conserved :
      (now : ℕ) {s : Pipeline}
      → Reach (started now) s
      → (count s.accepted
          ≡ count s.ended + queued s.down + queued s.run + held s.down_hand + held s.run_hand)
        × (length s.ended ≡ s.manager.g_task_end)
  messages_conserved now r =
      let v = Reach-Conserved (started-Conserved now) r in (v.total, v.counted)
