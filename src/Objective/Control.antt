-- ===== src/Objective/Control.antt =====
-- The tasks of the service thread and their termination: run_objective, RunningLock,
-- terminate_objective, to_stop_signal, reboot and objective_update_device_testbed of
-- src/target/o_pocket/context/logic/objecitve/logic_impl_http_service_objective.h, and
-- all_component_load_ and terminate_impl_ of logic_impl_http_service_objective.cpp.
-- What a connection, a file transfer, `system` and the clock answer are arguments. The kill
-- commands of `terminate_impl_` change no state of the program, and their errors are caught there.
use Prim.Native.Nat.{bit_or}
use device_broker.Prelude.{
  ℕ, String, Bool, true, false, not, ◌||◌, Option, none, some, List, ℤ, pos, neg, nonzero, eq_ℤ,
  if◌then◌else◌,
}
use device_broker.Requests.{ObjectiveRabbitmqTaskInfo, TaskObjectiveTerminate, UpdateTaskInfo}
use device_broker.TaskStatus.{
  TaskStatus, free, busy, rebooting, updated, update_success, divorced, rabbitmq_success,
  rabbitmq_fail, replace_task_state, replace_device_state,
}
use device_broker.TaskSuit.{
  TaskReturn, SignalHandle, sigint, code, task_update, task_reboot, task_run_objective,
}
use device_broker.Threadpool
use device_broker.Threadpool.{Threadpool, start_workers}
use device_broker.Objective.{Entity, cvt_system_return}
use device_broker.Objective.Poll.{Round, Poll, rabbitmq_msg_poll}

-- The pools and the connections, absent before the first load.
pub record Components : Type 0 where
  pub threadpool_down : Option (Threadpool Entity)
  pub threadpool_run_testbed : Option (Threadpool Entity)
  pub threadpool_upload : Option (Threadpool Entity)
  pub rabbimq_msg_mg : Bool
  pub smb_mg : Option (String × String)

-- `posted` is what the download pool was given.
pub record Control : Type 0 where
  pub components : Components
  pub task : ObjectiveRabbitmqTaskInfo
  pub smb_usr : String
  pub smb_passwd : String
  pub remain_num : ℤ
  pub is_running : Bool
  pub to_task_terminate : Bool
  pub is_terminating : Bool
  pub status : TaskStatus
  pub posted : List Entity

unfoldable pub load_pool : ℕ → ℕ → Option (Threadpool Entity) → Option (Threadpool Entity)
unfolding Threadpool.make start_workers
load_pool now limit (some p) = some p
load_pool now limit none = some (start_workers now (Threadpool.make (pos 1) limit none none))

-- The three pools, then the connections. The queue behind `rabbimq_msg_mg` is a component of its own.
unfoldable pub all_component_load : ℕ → ℤ → Control → ℤ × Control
unfolding load_pool replace_task_state replace_device_state
all_component_load now mq_state c =
    let pools = record c.components {
      threadpool_down = load_pool now 3 c.components.threadpool_down;
      threadpool_run_testbed = load_pool now 2 c.components.threadpool_run_testbed;
      threadpool_upload = load_pool now 3 c.components.threadpool_upload;
    } in
    if nonzero mq_state
    then (
      neg 1,
      record c {
        components = pools;
        status = replace_task_state rabbitmq_fail (replace_device_state free c.status);
      },
    )
    else (
      pos 0,
      record c {
        components = record pools {
          rabbimq_msg_mg = true;
          smb_mg = some (c.smb_usr, c.smb_passwd);
        };
      },
    )

-- RunningLock's constructor and destructor; `all_component_unload_` is switched off.
unfoldable pub running_lock : Control → Control
running_lock c = record c { is_running = true; to_task_terminate = false }

unfoldable pub running_unlock : Control → Control
running_unlock c = record c { is_running = false }

abbrev to_divorced : TaskStatus → TaskStatus
to_divorced s = replace_device_state free (replace_task_state divorced s)

unfoldable pub begin_objective : ObjectiveRabbitmqTaskInfo → Control → Control
unfolding replace_device_state running_lock
begin_objective info c = running_lock (record c {
  status = replace_device_state busy c.status;
  task = info;
  smb_usr = info.username_smb;
  smb_passwd = info.password_smb;
  remain_num = info.metrial_number;
})

unfoldable pub poll_of : Control → Poll
unfolding replace_task_state
poll_of c = record {
  remain_num = c.remain_num;
  posted = c.posted;
  status = replace_task_state rabbitmq_success c.status;
}

unfoldable pub end_objective : Poll → Control → Control
unfolding running_unlock replace_task_state replace_device_state
end_objective p c =
    running_unlock
      (record c { remain_num = p.remain_num; posted = p.posted; status = to_divorced p.status })

-- `none`: the poll goes on after the rounds given.
unfoldable pub run_objective :
    ℕ → ℤ → List Round → ObjectiveRabbitmqTaskInfo → Control → Option (TaskReturn × Control)
unfolding begin_objective all_component_load running_unlock poll_of end_objective code
run_objective now mq_state rounds info c =
    let (ret, loaded) = all_component_load now mq_state (begin_objective info c) in
    if nonzero ret
    then some (
      record {
        code_msg = "all_component_load_ fail";
        code_value = ret;
        task_type = code task_run_objective;
      },
      running_unlock loaded,
    )
    else (elim (rabbitmq_msg_poll rounds (poll_of loaded)) [
      | none ↦ none
      | some p ↦ some (
        record {
          code_msg = "run_objective end";
          code_value = pos 0;
          task_type = code task_run_objective;
        },
        end_objective p loaded,
      )
    ])

unfoldable pub to_stop_signal : SignalHandle → Control → Bool
unfolding sigint
to_stop_signal h c = sigint h || c.is_running

-- `terminate_impl_`: `none` while it waits.
unfoldable pub terminate_impl : SignalHandle → Control → Option Control
unfolding to_stop_signal replace_task_state replace_device_state
terminate_impl h c =
    let told = record c { to_task_terminate = true } in
    if not told.is_running || to_stop_signal h told
    then some (record told { status = to_divorced told.status })
    else none

-- With `is_front_or_back` the caller waits for the terminating thread; otherwise that thread runs
-- `terminate_impl_` and the reset of `is_terminating_` later.
unfoldable pub terminate_objective :
    SignalHandle → TaskObjectiveTerminate → Bool → Control → Option (ℤ × Control)
unfolding terminate_impl replace_task_state replace_device_state
terminate_objective h info is_front_or_back c =
    if not (eq_ℤ c.task.parent_task_id info.task_id)
    then some (neg 1, c)
    else if not c.is_running
    then some (pos 0, record c { status = to_divorced c.status })
    else if c.is_terminating
    then some (neg 3, c)
    else if is_front_or_back
    then (elim (terminate_impl h (record c { is_terminating = true })) [
      | none ↦ none
      | some t ↦ some (pos 0, record t { is_terminating = false })
    ])
    else some (pos 0, record c { is_terminating = true })

module _ (exited signaled : ℤ → Bool) (exit_status : ℤ → ℤ) where
  unfoldable pub reboot : ℤ → TaskStatus → TaskReturn × TaskStatus
  unfolding cvt_system_return code replace_device_state
  reboot answer s =
      let ret = cvt_system_return exited signaled exit_status answer in
      let s' = replace_device_state (bit_or busy rebooting) s in
      if nonzero ret
      then (
        record {
          code_msg = "call reboot command fail";
          code_value = neg 1;
          task_type = code task_reboot;
        },
        s',
      )
      else (
        record {
          code_msg = "call reboot command fail";
          code_value = neg 1;
          task_type = code task_reboot;
        },
        s',
      )

-- What `update_testbed_and_replace` and `down_file_and_replace` answer for an address.
module _ (update_testbed_and_replace down_file_and_replace : String → ℤ) where
  unfoldable pub objective_update_device_testbed :
      UpdateTaskInfo → TaskStatus → TaskReturn × TaskStatus
  unfolding code replace_task_state replace_device_state
  objective_update_device_testbed info s =
      if nonzero (update_testbed_and_replace info.testbed_pkg_path)
      then (
        record {
          code_msg = "update testbed and replace fail";
          code_value = neg 1;
          task_type = code task_update;
        },
        s,
      )
      else if nonzero (down_file_and_replace info.license_file_url)
      then (
        record {
          code_msg = "update testbed and replace fail";
          code_value = neg 2;
          task_type = code task_update;
        },
        s,
      )
      else (
        record {
          code_msg = "update testbed and replace success";
          code_value = pos 0;
          task_type = code task_update;
        },
        replace_task_state divorced
            (replace_device_state (bit_or (bit_or free updated) update_success) s),
      )
