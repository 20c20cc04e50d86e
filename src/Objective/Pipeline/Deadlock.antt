-- ===== src/Objective/Pipeline/Deadlock.antt =====
-- The run worker enqueues into the queue that it alone empties
-- (src/target/o_pocket/context/logic/objecitve/logic_impl_http_service_objective.cpp).
use device_broker.Prelude.{
  ℕ, ◌≤◌, ◌≡◌, refl, ◌∙◌, String, false, Option, none, some, List, [], ◌∷◌, ℤ, pos, length, arith,
}
use device_broker.SafeQueue.{insert_sync, insert_before, pop_sync}
use device_broker.SafeQueue
use device_broker.Requests.{RabbitmqMsgTaskInfo}
use device_broker.Threadpool.{
  Threadpool, TaskTuple, enqueue_task_sync, work_each_entity, start_workers,
}
use device_broker.Threadpool
use device_broker.Objective.{
  Entity, run, upload, call_entity, subtask_download_entity, subtask_run_entity, retry,
}
use device_broker.Objective.Pipeline.{
  hands, Pipeline, Step, Reach, posts, down_takes, down_calls, down_hands_on, run_takes, run_calls,
  run_hands_on, started,
}

-- The run worker waits to enqueue, and the queue is full and not stopped.
pub record Stuck (s : Pipeline) : Type 0 where
  pub waiting : (e : Entity) × (s.run_hand ≡ some (hands e))
  pub full : s.run.task_queue.limit_len_max ≤ length s.run.task_queue.inner_queue
  pub running : s.run.task_queue.is_stop_flag ≡ false

full_refuses :
    (e : Entity) (n : ℤ) (tag : String) (p : Threadpool Entity)
    → p.task_queue.limit_len_max ≤ length p.task_queue.inner_queue
    → p.task_queue.is_stop_flag ≡ false
    → enqueue_task_sync e n tag p ≡ none
unfolding enqueue_task_sync insert_sync
full_refuses e n tag p f r = ground arith

step-Stuck : {s t : Pipeline} → Stuck s → Step s t → (t.run ≡ s.run) × (t.run_hand ≡ s.run_hand)
step-Stuck v (posts info tag e f) = ground arith
step-Stuck v (down_takes h e f) = ground arith
step-Stuck v (down_calls answers h f) = ground arith
step-Stuck {s} v (down_hands_on tag {e = moved} h e f) =
    ground (arith, full_refuses moved (pos 0) tag s.run v.full v.running)
step-Stuck v (run_takes h e f) = ground (arith, v.waiting.1)
step-Stuck v (run_calls answers h f) = ground (arith, v.waiting.1)
step-Stuck {s} v (run_hands_on tag {e = moved} h e f) =
    ground (arith, full_refuses moved (pos 0) tag s.run v.full v.running)

Stuck-moves : {s t : Pipeline} → t.run ≡ s.run → t.run_hand ≡ s.run_hand → Stuck s → Stuck t
Stuck-moves a b v = record {
  waiting = (v.waiting.0, b ∙ v.waiting.1);
  full = rw a v.full;
  running = rw a v.running;
}

-- Once the run worker waits at its own full queue, nothing that the poll or the workers do ever
-- changes that pool: its queue stays full, its worker waits for ever, and no message that is in
-- the queue or in the worker's hands is run or uploaded.
pub Stuck-forever :
    {s t : Pipeline} → Stuck s → Reach s t → (t.run ≡ s.run) × (t.run_hand ≡ s.run_hand)
Stuck-forever v Reach.here = (refl, refl)
Stuck-forever v (Reach.next r st) =
    let (a, b) = Stuck-forever v r in
    let (a', b') = step-Stuck (Stuck-moves a b v) st in (a' ∙ a, b' ∙ b)

-- Every attempt answers 0.
abbrev pub succeeds : ℕ → ℤ
succeeds i = pos 0

two_le_two : 2 ≤ 2
two_le_two = omega arith

-- The entities of some tasks.
abbrev pub entities : List (TaskTuple Entity) → List (Option Entity)
entities [] = []
entities (t ∷ ts) = t.task ∷ entities ts

-- Whatever the three messages are, `Stuck` is reached from the start when the poll has enqueued these
-- three and no other: the run worker has run the last one and waits to enqueue its upload, the two
-- places of its queue are taken by the runs of the first and the second, and no message has ended or
-- failed.
pub deadlock_reachable :
    (now : ℕ) (a b c : RabbitmqMsgTaskInfo)
    → (s : Pipeline) × Reach (started now) s
      × Stuck s
      × (s.accepted ≡ a ∷ b ∷ c ∷ [])
      × (s.run_hand ≡ some (hands (upload c)))
      × (entities s.run.task_queue.inner_queue ≡ some (run a) ∷ some (run b) ∷ [])
      × (s.ended ≡ [])
      × (s.manager.g_task_end ≡ 0)
unfolding start_workers Threadpool.make SafeQueue.make enqueue_task_sync insert_sync insert_before
    work_each_entity pop_sync call_entity subtask_download_entity subtask_run_entity retry
deadlock_reachable now a b c =
    let r1 = Reach.next Reach.here (posts a "" refl refl) in
    let r2 = Reach.next r1 (posts b "" refl refl) in
    let r3 = Reach.next r2 (posts c "" refl refl) in
    let r4 = Reach.next r3 (down_takes refl refl refl) in
    let r5 = Reach.next r4 (down_calls succeeds refl refl) in
    let r6 = Reach.next r5 (down_hands_on "" refl refl refl) in
    let r7 = Reach.next r6 (run_takes refl refl refl) in
    let r8 = Reach.next r7 (down_takes refl refl refl) in
    let r9 = Reach.next r8 (down_calls succeeds refl refl) in
    let r10 = Reach.next r9 (down_hands_on "" refl refl refl) in
    let r11 = Reach.next r10 (down_takes refl refl refl) in
    let r12 = Reach.next r11 (down_calls succeeds refl refl) in
    let r13 = Reach.next r12 (down_hands_on "" refl refl refl) in
    let r14 = Reach.next r13 (run_calls succeeds refl refl) in
    (
      _,
      r14,
      record { waiting = (upload c, refl); full = two_le_two; running = refl },
      refl,
      refl,
      refl,
      refl,
      refl,
    )
