-- ===== src/Broker/System.antt =====
-- The threads of the service in any interleaving: the thread that answers requests (the handlers of
-- src/target/o_pocket/context/http_handle/http_service_handle_objective.cpp, one at a time), the service
-- thread (context/threadloop, context/task_suit) and signals. A handler posts a task first and
-- writes the states afterwards, as a step of its own. A post takes no lock. A wake-up without a notify
-- is left out.
use Prim.Native.Nat.{bit_or}
use device_broker.Prelude.{ℕ, ◌≡◌, Bool, true, false, none, some, pos, neg}
use device_broker.TaskStatus.{
  TaskStatus, free, busy, updating, running, divorced, file_pull, file_pull_fail, file_clear,
  file_clear_fail, replace_task_state, replace_device_state,
}
use device_broker.TaskSuit.{
  TaskSuitBase, TaskReturn, SignalHandle, StateEnum, task_none, post_task, empty_slot, wait_task,
  signal_come,
}
use device_broker.HttpService.{
  Job, reboot_job, update_job, objective_job, pull_job, clear_job, file_pull_job, file_clear_job,
}

-- What the service thread does: it is about to test the predicate of its wait, or has found it false and
-- is about to sleep, or sleeps, or calls a job, or is back from it with the slot still full, or has ended.
pub data Thread : Type 0 where
  waits : Thread
  has_tested : Thread
  sleeps : Thread
  calls : Job → Thread
  returned : Thread
  ended : Thread

-- `notify_all`, which reaches a thread that sleeps and no other.
unfoldable pub notify_all : Thread → Thread
notify_all sleeps = waits
notify_all waits = waits
notify_all has_tested = has_tested
notify_all (calls job) = calls job
notify_all returned = returned
notify_all ended = ended

-- What the handler does: nothing, or it has posted a job that was accepted, or refused, and has not
-- written the states yet.
pub data Handler : Type 0 where
  idle : Handler
  accepted refused : Job → Handler

pub record Threads : Type 0 where
  pub signals : SignalHandle
  pub suit : TaskSuitBase Job
  pub status : TaskStatus
  pub handler : Handler
  pub thread : Thread

-- What a handler writes after its post was accepted, and after it was refused.
unfoldable pub accepted_status : Job → TaskStatus → TaskStatus
unfolding replace_task_state replace_device_state
accepted_status (update_job info) s =
    replace_task_state running (replace_device_state (bit_or busy updating) s)
accepted_status (pull_job info) s =
    replace_task_state running (replace_device_state (bit_or busy file_pull) s)
accepted_status (clear_job info) s =
    replace_task_state running (replace_device_state (bit_or busy file_clear) s)
accepted_status job s = s

unfoldable pub refused_status : Job → TaskStatus → TaskStatus
unfolding replace_device_state
refused_status (pull_job info) s = replace_device_state (bit_or busy file_pull_fail) s
refused_status (clear_job info) s = replace_device_state (bit_or busy file_clear_fail) s
refused_status job s = s

-- The states that a job leaves: the closures of the two file jobs write them by what the operation has
-- returned; those of the others are not looked into here.
pub data Leaves : Job → TaskStatus → TaskStatus → Type 0 where
  pulled :
      {info : _} {s : TaskStatus} (ret : TaskReturn)
      → Leaves (pull_job info) s (file_pull_job ret s).1
  cleared :
      {info : _} {s : TaskStatus} (ret : TaskReturn)
      → Leaves (clear_job info) s (file_clear_job ret s).1
  rebooted : {s t : TaskStatus} → Leaves reboot_job s t
  updated : {info : _} {s t : TaskStatus} → Leaves (update_job info) s t
  objective_ended : {info : _} {s t : TaskStatus} → Leaves (objective_job info) s t

-- `jobs` tells which jobs requests ask for.
module _ (jobs : Job → Bool) where
  pub data Step (s t : Threads) : Type 0 where
    comes : (signal : ℕ) → t ≡ record s { signals = signal_come signal s.signals } → Step s t
    posts :
        (type : StateEnum) (job : Job) {suit : TaskSuitBase Job}
        → jobs job ≡ true
        → s.handler ≡ idle
        → post_task type job s.suit ≡ (pos 0, suit)
        → t ≡ record s { suit = suit; handler = accepted job; thread = notify_all s.thread }
        → Step s t
    is_refused :
        (type : StateEnum) (job : Job) {suit : TaskSuitBase Job}
        → jobs job ≡ true
        → s.handler ≡ idle
        → post_task type job s.suit ≡ (neg 1, suit)
        → t ≡ record s { suit = suit; handler = refused job }
        → Step s t
    writes :
        (job : Job)
        → s.handler ≡ accepted job
        → t ≡ record s { handler = idle; status = accepted_status job s.status }
        → Step s t
    writes_refusal :
        (job : Job)
        → s.handler ≡ refused job
        → t ≡ record s { handler = idle; status = refused_status job s.status }
        → Step s t
    takes :
        (job : Job)
        → s.thread ≡ waits
        → wait_task s.signals s.suit ≡ some false
        → s.suit.task_entity ≡ some job
        → t ≡ record s { thread = calls job }
        → Step s t
    -- the closure writes the states before the filter empties the slot
    returns :
        (job : Job) {status : TaskStatus}
        → s.thread ≡ calls job
        → Leaves job s.status status
        → t ≡ record s { status = status; thread = returned }
        → Step s t
    empties :
        s.thread ≡ returned → t ≡ record s { suit = empty_slot s.suit; thread = waits } → Step s t
    leaves :
        s.thread ≡ waits
        → wait_task s.signals s.suit ≡ some true
        → t ≡ record s { thread = ended }
        → Step s t
    tests :
        s.thread ≡ waits
        → wait_task s.signals s.suit ≡ none
        → t ≡ record s { thread = has_tested }
        → Step s t
    falls_asleep : s.thread ≡ has_tested → t ≡ record s { thread = sleeps } → Step s t
    -- ThreadloopObjectiveFSM::to_stop_singal, which reads `to_stop_` and notifies
    told_to_stop : t ≡ record s { thread = notify_all s.thread } → Step s t

  pub data Reach (s : Threads) : Threads → Type 0 where
    here : Reach s s
    next : {t u : Threads} → Reach s t → Step t u → Reach s u

abbrev pub started : Threads
started = record {
  signals = record { signal_status_sigint = 0 };
  suit = record { to_stop = false; task_entity = none; task_type = task_none };
  status = record { task_state = divorced; device_state = free };
  handler = idle;
  thread = waits;
}
