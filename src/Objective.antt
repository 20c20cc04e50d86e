-- ===== src/Objective.antt =====
-- src/target/o_pocket/context/logic/objecitve/logic_impl_http_service_objective.{h,cpp}, class
-- ObjectiveComponentManager: a material of a task is downloaded, run and uploaded by three
-- entities, each posted to a thread pool by the one before. What a transfer, a system call or a
-- connection answers is an argument. `sent` is what went to `MessageManage::Put`, whose answer is
-- only logged, and `cleaned` the calls of `FsImpl::clean_folder`. `is_terminating_` and the time
-- stamps of log lines play no part here. Counters start at 0 and rise by one for a message.
pub mod Poll
pub mod Accounting
pub mod Pipeline
pub mod Control
pub mod Lifecycle
pub mod Kill
mod Tests
use device_broker.Prelude.{
  ℕ, zero, suc, ◌+◌, String, Bool, true, false, Option, none, some, List, [], ◌∷◌, ◌++◌, ℤ, pos,
  neg, ◌==◌, nonzero, eq_ℤ, ltb_ℤ, if◌then◌else◌,
}
use device_broker.Requests.{RabbitmqMsgTaskInfo, ObjectiveRabbitmqTaskInfo}
use device_broker.TaskStatus.{
  TaskStatus, free, rabbitmq_end, replace_task_state, replace_device_state,
}
use device_broker.TaskSuit.{TaskReturn}

-- enum TASK_TYPE of task_status.h
pub data TaskType : Type 0 where
  task_type_update task_type_runing task_type_sub_down task_type_sub_running task_type_upload :
      TaskType

unfoldable pub type_code : TaskType → ℕ
type_code task_type_update = 0
type_code task_type_runing = 1
type_code task_type_sub_down = 2
type_code task_type_sub_running = 3
type_code task_type_upload = 4

-- The closures that the pools carry: what runs, for which message.
pub data Entity : Type 0 where
  download run upload : RabbitmqMsgTaskInfo → Entity

-- A report: `code`, `msg` and `content`, and the message that it answers.
pub record Report : Type 0 where
  pub about : RabbitmqMsgTaskInfo
  pub code : ℤ
  pub msg : String
  pub content : String

pub record Manager : Type 0 where
  pub num_init : ℕ
  pub g_task_end : ℕ
  pub updated_cnt : ℕ
  pub status : TaskStatus
  pub sent : List Report
  pub cleaned : ℕ

-- `for (i = 0; i < n; i++) { ret = call(); if (!ret) break; }`: the attempts left, the number of
-- the next one, and the last answer.
unfoldable pub retry : (ℕ → ℤ) → ℕ → ℕ → ℤ → ℤ
retry answers zero i ret = ret
retry answers (suc n) i ret =
    let rest = retry answers n (i + 1) (answers i) in
    if nonzero (answers i) then rest else answers i

-- check_msg_serial_to_clean_
unfoldable pub check_msg_serial_to_clean : Manager → Bool × Manager
unfolding replace_task_state replace_device_state
check_msg_serial_to_clean m =
    if m.g_task_end == m.num_init
    then (
      true,
      record m {
        status = replace_device_state free (replace_task_state rabbitmq_end m.status);
        cleaned = m.cleaned + 1;
      },
    )
    else (false, m)

-- rabbimq_msg_mg->Put
abbrev put : RabbitmqMsgTaskInfo → ℤ → String → String → Manager → Manager
put info code msg content m = record m {
  sent = m.sent ++ record { about = info; code = code; msg = msg; content = content } ∷ [];
}

abbrev end_task : Manager → Manager
end_task m = record m { g_task_end = m.g_task_end + 1 }

abbrev count_update : Manager → Manager
count_update m = record m { updated_cnt = m.updated_cnt + 1 }

-- What an entity leaves: the entity that it enqueues next, its return value, the manager.
pub record Outcome : Type 0 where
  pub follow : Option Entity
  pub return : TaskReturn
  pub manager : Manager

-- The branch of a failed stage: report, count the end, perhaps clean.
fail_stage : RabbitmqMsgTaskInfo → TaskType → ℤ → String → String → Manager → Outcome
unfolding type_code check_msg_serial_to_clean
fail_stage info type ret content code_msg m = record {
  follow = none;
  return = record { code_msg = code_msg; code_value = ret; task_type = type_code type };
  manager = (check_msg_serial_to_clean (end_task (put info ret "fail" content m))).1;
}

unfoldable pub subtask_download_entity : (ℕ → ℤ) → RabbitmqMsgTaskInfo → Manager → Outcome
unfolding retry fail_stage
subtask_download_entity answers info m =
    let ret = retry answers 3 0 (pos 0) in
    if nonzero ret
    then fail_stage info task_type_sub_down ret "smb download fail" "smb download fail" m
    else record {
      follow = some (run info);
      return = record {
        code_msg = "smb download success";
        code_value = ret;
        task_type = type_code task_type_sub_down;
      };
      manager = put info ret "success" "non" (count_update m);
    }

unfoldable pub subtask_run_entity : (ℕ → ℤ) → RabbitmqMsgTaskInfo → Manager → Outcome
unfolding retry fail_stage
subtask_run_entity answers info m =
    let ret = retry answers 10 0 (pos 0) in
    if nonzero ret
    then fail_stage info task_type_sub_running ret "testbed run fail" "run testbed fail" m
    else record {
      follow = some (upload info);
      return = record {
        code_msg = "run testbed success";
        code_value = ret;
        task_type = type_code task_type_sub_running;
      };
      manager = put info ret "success" "non" (count_update m);
    }

unfoldable pub subtask_upload_entity : (ℕ → ℤ) → RabbitmqMsgTaskInfo → Manager → Outcome
unfolding retry fail_stage
subtask_upload_entity answers info m =
    let ret = retry answers 3 0 (pos 0) in
    if nonzero ret
    then fail_stage info task_type_upload ret "testbedRun upload fail" "result upload fail" m
    else record {
      follow = none;
      return = record {
        code_msg = "upload success";
        code_value = ret;
        task_type = type_code task_type_upload;
      };
      manager =
          (check_msg_serial_to_clean (end_task (put info ret "success" "non" (count_update m)))).1;
    }

-- The call of an entity. The run entity's answers are those of `system`, converted.
unfoldable pub call_entity : (ℕ → ℤ) → Entity → Manager → Outcome
call_entity answers (download info) m = subtask_download_entity answers info m
call_entity answers (run info) m = subtask_run_entity answers info m
call_entity answers (upload info) m = subtask_upload_entity answers info m

-- all_task_end_: what is put, and the state; the flag test's answer is dropped.
unfoldable pub all_task_end : RabbitmqMsgTaskInfo → Manager → Manager
unfolding replace_task_state replace_device_state
all_task_end about m = record (put about (pos 0) "" "end" m) {
  status = replace_device_state free (replace_task_state rabbitmq_end m.status);
}

-- cvt_system_return_: the status macros of <sys/wait.h> are arguments.
module _ (exited signaled : ℤ → Bool) (exit_status : ℤ → ℤ) where
  unfoldable pub cvt_system_return : ℤ → ℤ
  cvt_system_return ret =
      if eq_ℤ (neg 1) ret
      then neg 100
      else if exited ret
      then exit_status ret
      else if signaled ret
      then neg 200
      else neg 300
