-- ===== src/TaskSuit.antt =====
-- src/target/o_pocket/context/task_suit/state_suit.h, task_suit.h, task_suit.cpp, the filter of
-- src/target/o_pocket/context/threadloop/threadloop_objective.cpp, and the signal counter of
-- src/target/o_pocket/signal/signal_handle.h: one slot for a posted task, which the service thread
-- takes. An entity is a value of T; what its call does to the program is an argument.
pub mod Lifecycle
mod Tests
use device_broker.Prelude.{
  ℕ, suc, ◌+◌, String, Bool, true, false, ◌||◌, Option, none, some, ℤ, pos, neg, ltb, ◌==◌,
  if◌then◌else◌,
}

-- STATE_ENUM
pub data StateEnum : Type 0 where
  state_free state_busy task_update task_reboot task_run_objective : StateEnum
  task_file_opt_file_pull task_file_opt_file_clear task_none : StateEnum

-- The value of an enumerator, as a TaskReturn stores it.
unfoldable pub code : StateEnum → ℕ
code state_free = 0
code state_busy = 1
code task_update = 2
code task_reboot = 3
code task_run_objective = 4
code task_file_opt_file_pull = 5
code task_file_opt_file_clear = 6
code task_none = 7

-- SignalHandle
pub record SignalHandle : Type 0 where
  pub signal_status_sigint : ℕ

-- SIGINT is 2.
unfoldable pub signal_come : ℕ → SignalHandle → SignalHandle
signal_come signal h =
    if signal == 2 then record h { signal_status_sigint = h.signal_status_sigint + 1 } else h

unfoldable pub sigint : SignalHandle → Bool
sigint h = ltb 0 h.signal_status_sigint

pub record StateSuit : Type 0 where
  pub cur_state : StateEnum
  pub to_stop : Bool

unfoldable pub is_free : StateSuit → Bool
is_free s = elim s.cur_state [ state_free ↦ true | _ ↦ false ]

unfoldable pub is_busy : StateSuit → Bool
is_busy s = elim s.cur_state [ state_busy ↦ true | _ ↦ false ]

unfoldable pub is_out_terminate_signal : SignalHandle → StateSuit → Bool
is_out_terminate_signal h s = sigint h || s.to_stop

unfoldable pub to_busy : StateSuit → StateSuit
to_busy s = record s { cur_state = state_busy }

unfoldable pub to_free : StateSuit → StateSuit
to_free s = record s { cur_state = state_free }

unfoldable pub suit_to_stop : StateSuit → StateSuit
suit_to_stop s = record s { to_stop = true }

-- `state_lock` around a body.
unfoldable pub state_lock : (StateSuit → StateSuit) → StateSuit → StateSuit
unfolding to_busy to_free
state_lock body s = to_free (body (to_busy s))

pub record TaskReturn : Type 0 where
  pub code_msg : String
  pub code_value : ℤ
  pub task_type : ℕ

abbrev pub default_return : TaskReturn
default_return = record { code_msg = "success"; code_value = pos 0; task_type = 7 }

-- What the base class's filter records for a task of a type.
base_return : StateEnum → TaskReturn
unfolding code
base_return task_update = record {
  code_msg = "run 5000 ms success";
  code_value = pos 0;
  task_type = code task_update;
}
base_return type = record default_return { task_type = code type }

pub record TaskSuitBase {ℓ} (T : Type ℓ) : Type ℓ where
  pub to_stop : Bool
  pub task_entity : Option T
  pub task_type : StateEnum

module _ {ℓ} {T : Type ℓ} where
  unfoldable pub to_stop_signal : SignalHandle → TaskSuitBase T → Bool
  unfolding sigint
  to_stop_signal h s = sigint h || s.to_stop

  -- The two halves of `post_task`, which takes no lock: the test, and the writes.
  abbrev pub is_empty : TaskSuitBase T → Bool
  is_empty s = elim s.task_entity [ none ↦ true | some _ ↦ false ]

  unfoldable pub fill : StateEnum → T → TaskSuitBase T → TaskSuitBase T
  fill task entity s = record s { task_type = task; task_entity = some entity }

  -- What `task_filter` does to the slot after the call.
  unfoldable pub empty_slot : TaskSuitBase T → TaskSuitBase T
  empty_slot s = record s { task_entity = none }

  unfoldable pub post_task : StateEnum → T → TaskSuitBase T → ℤ × TaskSuitBase T
  unfolding fill
  post_task task entity s = if is_empty s then (pos 0, fill task entity s) else (neg 1, s)

  -- `is_to_termiate`; `none` while there is neither a task nor a reason to stop.
  unfoldable pub wait_task : SignalHandle → TaskSuitBase T → Option Bool
  unfolding to_stop_signal
  wait_task h s =
      if to_stop_signal h s
      then some true
      else (elim s.task_entity [ none ↦ none | some _ ↦ some false ])

  -- The filter of the base class: it runs no entity and leaves the slot filled.
  unfoldable pub base_task_filter :
      SignalHandle → TaskSuitBase T → Option (Bool × TaskReturn × TaskSuitBase T)
  unfolding wait_task base_return
  base_task_filter h s = elim (wait_task h s) [
    | none ↦ none
    | some true ↦ some (true, default_return, s)
    | some false ↦ some (false, base_return s.task_type, s)
  ]

-- TaskSuitObjective::task_filter: the `switch` over the task's type.
module _ {ℓ κ} {T : Type ℓ} {W : Type κ} (call : T → W → TaskReturn × W) where
  call_entity : Option T → StateEnum → W → TaskReturn × W
  unfolding code
  call_entity none type w = (record default_return { task_type = code type }, w)
  call_entity (some entity) type w = call entity w

  -- An unsupported type runs nothing.
  unfoldable pub run_task : Option T → StateEnum → W → TaskReturn × W
  unfolding call_entity code
  run_task entity task_update w = call_entity entity task_update w
  run_task entity task_run_objective w = call_entity entity task_run_objective w
  run_task entity task_reboot w = call_entity entity task_reboot w
  run_task entity task_file_opt_file_pull w = call_entity entity task_file_opt_file_pull w
  run_task entity task_file_opt_file_clear w = call_entity entity task_file_opt_file_clear w
  run_task entity type w = (record default_return { task_type = code type }, w)

  unfoldable pub task_filter :
      SignalHandle → TaskSuitBase T → W → Option (Bool × TaskReturn × TaskSuitBase T × W)
  unfolding wait_task run_task empty_slot
  task_filter h s w = elim (wait_task h s) [
    | none ↦ none
    | some true ↦ some (true, default_return, s, w)
    | some false ↦
        (let (ret, w') = run_task s.task_entity s.task_type w in
          some (false, ret, empty_slot s, w'))
  ]
