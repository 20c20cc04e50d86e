-- ===== src/HttpService.antt =====
-- src/target/o_pocket/context/http_handle/http_service_handle_objective.cpp: the requests of the
-- service and what they answer. A body is parsed by a JSON library that is not in the repository:
-- what it makes of a body is an argument (`none`: it throws). A response carries the flags, from
-- which the body's numbers and, by TaskStatus, its strings are made; the rest of the body has the
-- code, the message and the task's number.
pub mod Replies
mod Tests
use Prim.Native.Nat.{bit_or, Ordering}
use Prim.Native.String.{compare}
use device_broker.Prelude.{
  ℕ, String, Bool, true, false, not, ◌||◌, ◌&&◌, Option, none, some, List, [], ◌∷◌, ℤ, pos, neg,
  nonzero, if◌then◌else◌,
}
use device_broker.Requests.{
  UpdateTaskInfo, ObjectiveRabbitmqTaskInfo, TaskDeviceState, TaskObjectiveTerminate,
  TaskFileOperationFilePull, TaskFileOperationFileClear,
}
use device_broker.TaskStatus.{
  TaskStatus, free, busy, updating, running, file_pull, file_pull_fail, file_pull_success,
  file_clear, file_clear_fail, file_clear_success, replace_task_state, replace_device_state,
}
use device_broker.TaskSuit.{
  TaskSuitBase, TaskReturn, SignalHandle, StateEnum, post_task, task_update, task_reboot,
  task_run_objective, task_file_opt_file_pull, task_file_opt_file_clear,
}
use device_broker.Objective.Control.{Control, terminate_objective}

-- The closures that the handlers post.
pub data Job : Type 0 where
  reboot_job : Job
  update_job : UpdateTaskInfo → Job
  objective_job : ObjectiveRabbitmqTaskInfo → Job
  pull_job : TaskFileOperationFilePull → Job
  clear_job : TaskFileOperationFileClear → Job

pub record Service : Type 0 where
  pub suit : TaskSuitBase Job
  pub control : Control

-- `errcode` is the HTTP status that is sent.
pub record Response : Type 0 where
  pub errcode : ℕ
  pub code : ℤ
  pub msg : String
  pub task_id : ℤ
  pub status : TaskStatus

-- `response_code` and `response_code_msg`, by what a post or a termination answered.
reply : ℤ → ℤ → Service → Response × Service
reply ret task_id s = (
  record {
    errcode = 0;
    code = if nonzero ret then neg 1 else pos 0;
    msg = if nonzero ret then "fail" else "success";
    task_id = task_id;
    status = s.control.status;
  },
  s,
)

-- What is left where parsing threw: `errcode` is set, the rest keeps its first value.
unfoldable pub parse_failed : Service → Response × Service
parse_failed s = (
  record {
    errcode = 200;
    code = pos 0;
    msg = "success";
    task_id = neg 1;
    status = s.control.status;
  },
  s,
)

abbrev set_device : ℕ → Service → Service
set_device v s = record s {
  control = record s.control { status = replace_device_state v s.control.status };
}

abbrev set_task : ℕ → Service → Service
set_task v s = record s {
  control = record s.control { status = replace_task_state v s.control.status };
}

-- The two branches of a handler after `post_task`.
settle : (Service → Service) → (Service → Service) → ℤ → Service → Service
settle refused posted ret s = if nonzero ret then refused s else posted s

unfoldable pub handle_status : Option TaskDeviceState → Service → Response × Service
unfolding reply parse_failed post_task
handle_status none s = parse_failed s
handle_status (some info) s =
    let (ret, suit) = post_task task_reboot reboot_job s.suit in
    if nonzero info.reboot
    then reply ret info.task_id (record s { suit = suit })
    else reply (pos 0) info.task_id s

unfoldable pub handle_update : Option UpdateTaskInfo → Service → Response × Service
unfolding reply parse_failed post_task settle replace_task_state replace_device_state
handle_update none s = parse_failed s
handle_update (some info) s =
    let (ret, suit) = post_task task_update (update_job info) s.suit in
    reply ret info.task_id (
      settle (λ t. t) (λ t. set_task running (set_device (bit_or busy updating) t)) ret
        (record s { suit = suit }))

unfoldable pub handle_file_pull : Option TaskFileOperationFilePull → Service → Response × Service
unfolding reply parse_failed post_task settle replace_task_state replace_device_state
handle_file_pull none s = parse_failed s
handle_file_pull (some info) s =
    let (ret, suit) = post_task task_file_opt_file_pull (pull_job info) s.suit in
    reply ret info.task_id (
      settle (set_device (bit_or busy file_pull_fail))
        (λ t. set_task running (set_device (bit_or busy file_pull) t)) ret
        (record s { suit = suit }))

unfoldable pub handle_file_clear : Option TaskFileOperationFileClear → Service → Response × Service
unfolding reply parse_failed post_task settle replace_task_state replace_device_state
handle_file_clear none s = parse_failed s
handle_file_clear (some info) s =
    let (ret, suit) = post_task task_file_opt_file_clear (clear_job info) s.suit in
    reply ret info.task_id (
      settle (set_device (bit_or busy file_clear_fail))
        (λ t. set_task running (set_device (bit_or busy file_clear) t)) ret
        (record s { suit = suit }))

-- The closures of the two file handlers, by what the file operation returned.
unfoldable pub file_pull_job : TaskReturn → TaskStatus → TaskReturn × TaskStatus
unfolding replace_task_state replace_device_state
file_pull_job ret s =
    if nonzero ret.code_value
    then (ret, replace_task_state free (replace_device_state (bit_or free file_pull_fail) s))
    else (ret, replace_task_state free (replace_device_state (bit_or free file_pull_success) s))

unfoldable pub file_clear_job : TaskReturn → TaskStatus → TaskReturn × TaskStatus
unfolding replace_task_state replace_device_state
file_clear_job ret s =
    if nonzero ret.code_value
    then (ret, replace_task_state free (replace_device_state (bit_or free file_clear_fail) s))
    else (ret, replace_task_state free (replace_device_state (bit_or free file_clear_success) s))

-- Termination in the background; it never waits, so `none` does not come.
unfoldable pub handle_terminate :
    SignalHandle → Option TaskObjectiveTerminate → Service → Option (Response × Service)
unfolding reply parse_failed terminate_objective
handle_terminate h none s = some (parse_failed s)
handle_terminate h (some info) s = elim (terminate_objective h info false s.control) [
  | none ↦ none
  | some (ret, control) ↦ some (reply ret info.task_id (record s { control = control }))
]

unfoldable pub handle_run_objective :
    Option ObjectiveRabbitmqTaskInfo → Service → Response × Service
unfolding reply parse_failed post_task
handle_run_objective none s = parse_failed s
handle_run_objective (some info) s =
    let (ret, suit) = post_task task_run_objective (objective_job info) s.suit in
    reply ret info.parent_task_id (record s { suit = suit })

-- The handlers by name, and the table of routes.
pub data Handle : Type 0 where
  status update terminate run_objective log test pull clear : Handle

pub record MatchItem : Type 0 where
  pub uri : String
  pub method : String
  pub handle : Handle

abbrev any_method : String → Handle → MatchItem
any_method uri handle = record { uri = uri; method = ""; handle = handle }

abbrev pub g_vec_match_item : List MatchItem
g_vec_match_item =
    any_method "/device_service/device/status" status
    ∷ any_method "/device_service/update/testbed_metiral" update
    ∷ any_method "/device_service/task/terminate" terminate
    ∷ any_method "/handler_rabbitmq_info" run_objective
    ∷ any_method "/device_service/log" log
    ∷ any_method "/device_service/test" test
    ∷ any_method "/device_service/file_opt/file_pull" pull
    ∷ any_method "/device_service/file_opt/file_clear" clear
    ∷ []

abbrev pub same_string : String → String → Bool
same_string a b = elim (compare a b) [ Ordering.eq ↦ true | _ ↦ false ]

abbrev pub is_match : String → String → MatchItem → Bool
is_match uri method item = not (
    (not (same_string item.uri "") && not (same_string item.uri uri))
    || (not (same_string item.method "") && not (same_string item.method method)))

-- The loop of the callback: the handler that it calls. With none it sends no reply.
unfoldable pub find_handle : String → String → List MatchItem → Option Handle
find_handle uri method [] = none
find_handle uri method (item ∷ items) =
    if is_match uri method item then some item.handle else find_handle uri method items

-- What the JSON library makes of a request's body.
pub record Body : Type 0 where
  pub as_status : Option TaskDeviceState
  pub as_update : Option UpdateTaskInfo
  pub as_terminate : Option TaskObjectiveTerminate
  pub as_run_objective : Option ObjectiveRabbitmqTaskInfo
  pub as_pull : Option TaskFileOperationFilePull
  pub as_clear : Option TaskFileOperationFileClear

-- `none` in the first place: the handler leaves the reply as it was, empty.
unfoldable pub call_handle :
    SignalHandle → Body → Handle → Service → Option (Option Response × Service)
unfolding handle_status handle_update handle_terminate handle_run_objective handle_file_pull
    handle_file_clear
call_handle h body handle s = elim handle [
  | status ↦ (let (r, t) = handle_status body.as_status s in some (some r, t))
  | update ↦ (let (r, t) = handle_update body.as_update s in some (some r, t))
  | terminate ↦ (elim (handle_terminate h body.as_terminate s) [
    | none ↦ none
    | some (r, t) ↦ some (some r, t)
  ])
  | run_objective ↦ (let (r, t) = handle_run_objective body.as_run_objective s in some (some r, t))
  | log ↦ some (none, s)
  | test ↦ some (none, s)
  | pull ↦ (let (r, t) = handle_file_pull body.as_pull s in some (some r, t))
  | clear ↦ (let (r, t) = handle_file_clear body.as_clear s in some (some r, t))
]
