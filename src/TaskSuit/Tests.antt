-- ===== src/TaskSuit/Tests.antt =====
-- The task slot's properties at a concrete history
-- (src/target/o_pocket/context/task_suit/task_suit.cpp, threadloop/threadloop_objective.cpp).
use device_broker.Prelude.{ℕ, ◌≡◌, refl, none, some, [], ◌∷◌, ◌++◌, false}
use device_broker.TaskSuit.{SignalHandle, TaskSuitBase, fill, wait_task, task_update}
use device_broker.TaskSuit.Lifecycle.{Service, Step, Reach, started, accepted_in_order}

abbrev no_signal : SignalHandle
no_signal = record { signal_status_sigint = 0 }

abbrev with_task : TaskSuitBase ℕ
with_task = record { to_stop = false; task_entity = some 7; task_type = task_update }

-- Task 7 posted, and called by the service thread.
abbrev busy : Service ℕ
busy = record {
  suit = with_task;
  posting = none;
  running = some 7;
  accepted = 7 ∷ [];
  finished = [];
}

is_called : Reach started busy
unfolding fill wait_task
is_called =
    Reach.next
      (Reach.next (Reach.next Reach.here (Step.tests task_update 7 refl refl refl))
        (Step.fills task_update 7 refl refl))
      (Step.begins no_signal 7 refl refl refl refl)

accepted_in_order_example : busy.accepted ≡ busy.finished ++ 7 ∷ []
accepted_in_order_example = accepted_in_order is_called
