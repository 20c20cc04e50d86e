-- ===== src/Objective/Lifecycle.antt =====
-- What running and terminating an objective leaves behind
-- (src/target/o_pocket/context/logic/objecitve/logic_impl_http_service_objective.h).
use device_broker.Prelude.{
  ℕ, ◌≤◌, ◌≡◌, ◌∙◌, refl, Bool, true, false, Option, none, some, List, ℤ, pos, neg, nonzero, eq_ℤ,
  arith, if◌then◌else◌, Bool-cases, inl, inr,
}
use device_broker.Requests.{ObjectiveRabbitmqTaskInfo, TaskObjectiveTerminate}
use device_broker.TaskStatus.{free, divorced, rabbitmq_fail}
use device_broker.TaskSuit.{SignalHandle}
use device_broker.Threadpool.{Threadpool}
use device_broker.Objective.{Entity}
use device_broker.Objective.Poll.{Round, received, poll_ends}
use device_broker.Objective.Control.{
  Control, load_pool, all_component_load, run_objective, to_stop_signal, terminate_impl,
  terminate_objective, begin_objective, poll_of, end_objective, running_unlock,
}

-- Where the download pool's queue has room for every message, so that no enqueue waits, a task whose
-- connection opens and whose rounds bring as many messages as it has materials ends:
-- it answers 0, the lock is released, and the service is free again.
pub run_objective_ends :
    (now : ℕ) (mq_state : ℤ) (rounds : List Round) (info : ObjectiveRabbitmqTaskInfo) (n : ℕ)
    (c : Control)
    → nonzero mq_state ≡ false
    → info.metrial_number ≡ pos n
    → n ≤ received rounds
    → (c' : Control) × (run_objective now mq_state rounds info c
        ≡ some (record { code_msg = "run_objective end"; code_value = pos 0; task_type = 4 }, c'))
      × (c'.is_running ≡ false)
      × (c'.status.task_state ≡ divorced)
      × (c'.status.device_state ≡ free)
unfolding run_objective all_component_load begin_objective poll_of end_objective
run_objective_ends now mq_state rounds info n c ok count enough =
    let loaded = (all_component_load now mq_state (begin_objective info c)).1 in
    let remain : loaded.remain_num ≡ pos n = ground arith in
    let (p, ends) = poll_ends rounds n (poll_of loaded) remain enough in
    (end_objective p loaded, ground arith, refl, refl, refl)

-- A task whose connection does not open answers -1 without taking a message, releases the lock,
-- and leaves the device free and the task state at the failure.
pub run_objective_refused :
    (now : ℕ) (mq_state : ℤ) (rounds : List Round) (info : ObjectiveRabbitmqTaskInfo) (c : Control)
    → nonzero mq_state ≡ true
    → (c' : Control) × (run_objective now mq_state rounds info c
        ≡ some (
          record { code_msg = "all_component_load_ fail"; code_value = neg 1; task_type = 4 },
          c',
        ))
      × (c'.is_running ≡ false)
      × (c'.posted ≡ c.posted)
      × (c'.status.task_state ≡ rabbitmq_fail)
      × (c'.status.device_state ≡ free)
unfolding run_objective all_component_load begin_objective running_unlock
run_objective_refused now mq_state rounds info c bad = (
  running_unlock (all_component_load now mq_state (begin_objective info c)).1,
  ground arith,
  ground arith,
  ground arith,
  ground arith,
  ground arith,
)

load_pool_again :
    (now later limit : ℕ) (o : Option (Threadpool Entity))
    → load_pool later limit (load_pool now limit o) ≡ load_pool now limit o
unfolding load_pool
load_pool_again now later limit none = refl
load_pool_again now later limit (some p) = refl

loaded_pools :
    (now : ℕ) (mq_state : ℤ) (c : Control)
    → let t = (all_component_load now mq_state c).1.components in
      (t.threadpool_down ≡ load_pool now 3 c.components.threadpool_down)
      × (t.threadpool_run_testbed ≡ load_pool now 2 c.components.threadpool_run_testbed)
      × (t.threadpool_upload ≡ load_pool now 3 c.components.threadpool_upload)
unfolding all_component_load
loaded_pools now mq_state c = ground arith

-- Loading again keeps the pools that the first load made: whatever the connection answers each
-- time, no pool is made, and no worker started, twice.
pub load_keeps_pools :
    (now later : ℕ) (mq_state again : ℤ) (c : Control)
    → let first = (all_component_load now mq_state c).1.components in
      let second =
        (all_component_load later again (all_component_load now mq_state c).1).1.components in
      (second.threadpool_down ≡ first.threadpool_down)
      × (second.threadpool_run_testbed ≡ first.threadpool_run_testbed)
      × (second.threadpool_upload ≡ first.threadpool_upload)
load_keeps_pools now later mq_state again c =
    let (a, b, d) = loaded_pools now mq_state c in
    let (a', b', d') = loaded_pools later again (all_component_load now mq_state c).1 in
    let k = c.components in
    (
      a' ∙ rw a (load_pool_again now later 3 k.threadpool_down),
      b' ∙ rw b (load_pool_again now later 2 k.threadpool_run_testbed),
      d' ∙ rw d (load_pool_again now later 3 k.threadpool_upload),
    )

-- The terminating thread never waits for the objective to end: in every state and without any
-- signal it goes on at once, asks the poll to stop, reports the service free, and leaves
-- `is_running_` as it was.
terminate_never_waits :
    (h : SignalHandle) (c : Control)
    → (t : Control) × (terminate_impl h c ≡ some t)
      × (t.to_task_terminate ≡ true)
      × (t.status.task_state ≡ divorced)
      × (t.status.device_state ≡ free)
      × (t.is_running ≡ c.is_running)
unfolding terminate_impl to_stop_signal
terminate_never_waits h c = elim (Bool-cases c.is_running) [
  | inl busy ↦ (told, ground arith, refl, refl, refl, refl)
  | inr idle ↦ (told, ground arith, refl, refl, refl, refl)
]
  where
    told : Control
    told = record c {
      to_task_terminate = true;
      status = record { task_state = divorced; device_state = free };
    }

-- A request that names another task, or comes while one is being carried out, is refused with -1
-- or -3 and changes nothing; one that comes while nothing runs only resets the flags.
pub terminate_guards :
    (h : SignalHandle) (info : TaskObjectiveTerminate) (front : Bool) (c : Control)
    → (if eq_ℤ c.task.parent_task_id info.task_id
        then (if c.is_running
            then (if c.is_terminating
                then terminate_objective h info front c ≡ some (neg 3, c)
                else Unit)
            else (terminate_objective h info front c
                ≡ some (
                  pos 0,
                  record c { status = record { task_state = divorced; device_state = free } },
                )))
        else (terminate_objective h info front c ≡ some (neg 1, c)))
unfolding terminate_objective
terminate_guards h info front c = ground arith
