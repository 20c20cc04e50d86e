-- ===== src/HttpService/Replies.antt =====
-- What the service's requests do and answer
-- (src/target/o_pocket/context/http_handle/http_service_handle_objective.cpp).
use device_broker.Prelude.{
  String, All, ℕ, ◌≡◌, refl, Bool, true, false, Option, none, some, ℤ, pos, neg, arith, All,
}
use Prim.Native.Nat.{bit_or}
use device_broker.TaskStatus.{busy, file_pull_fail, file_clear_fail}
use device_broker.TaskSuit.{SignalHandle, StateEnum, post_task}
use device_broker.HttpService.{
  find_handle, g_vec_match_item, Job, Service, Response, Handle, Body, handle_status, handle_update,
  handle_file_pull, handle_file_clear, handle_terminate, handle_run_objective, call_handle, status,
  update, terminate, run_objective, log, test, pull, clear, reply, settle, parse_failed,
}

-- The job that a request asks the service thread for, if its body parses and it asks for one.
abbrev pub job_of : Body → Handle → Option (StateEnum × ℤ × Job)
job_of b update = elim b.as_update [
  | none ↦ none
  | some info ↦ some (StateEnum.task_update, info.task_id, Job.update_job info)
]
job_of b run_objective = elim b.as_run_objective [
  | none ↦ none
  | some info ↦ some (StateEnum.task_run_objective, info.parent_task_id, Job.objective_job info)
]
job_of b pull = elim b.as_pull [
  | none ↦ none
  | some info ↦ some (StateEnum.task_file_opt_file_pull, info.task_id, Job.pull_job info)
]
job_of b clear = elim b.as_clear [
  | none ↦ none
  | some info ↦ some (StateEnum.task_file_opt_file_clear, info.task_id, Job.clear_job info)
]
job_of b handle = none

-- The device state that a refused request leaves.
abbrev pub refused_state : Handle → ℕ → ℕ
refused_state pull device = bit_or busy file_pull_fail
refused_state clear device = bit_or busy file_clear_fail
refused_state handle device = device

-- While a job is in the slot, a request for another answers code -1 and "fail" and leaves the slot
-- and the task state as they are. A refused file request overwrites the device state all the same.
job_refused :
    (h : SignalHandle) (b : Body) (handle : Handle) (s : Service) (there : Job) {type : StateEnum}
    {id : ℤ} {job : Job}
    → job_of b handle ≡ some (type, id, job)
    → s.suit.task_entity ≡ some there
    → (r : Response) × (t : Service) × (call_handle h b handle s ≡ some (some r, t))
      × (r.code ≡ neg 1)
      × (r.msg ≡ "fail")
      × (r.task_id ≡ id)
      × (t.suit ≡ s.suit)
      × (t.control.status.task_state ≡ s.control.status.task_state)
      × (t.control.status.device_state ≡ refused_state handle s.control.status.device_state)
unfolding call_handle handle_update handle_run_objective handle_file_pull handle_file_clear
    post_task reply settle
job_refused h b update s there e f = (
  (handle_update b.as_update s).0,
  (handle_update b.as_update s).1,
  refl,
  ground arith,
  ground arith,
  ground arith,
  ground arith,
  ground arith,
  ground arith,
)
job_refused h b run_objective s there e f = (
  (handle_run_objective b.as_run_objective s).0,
  (handle_run_objective b.as_run_objective s).1,
  refl,
  ground arith,
  ground arith,
  ground arith,
  ground arith,
  ground arith,
  ground arith,
)
job_refused h b pull s there e f = (
  (handle_file_pull b.as_pull s).0,
  (handle_file_pull b.as_pull s).1,
  refl,
  ground arith,
  ground arith,
  ground arith,
  ground arith,
  ground arith,
  ground arith,
)
job_refused h b clear s there e f = (
  (handle_file_clear b.as_clear s).0,
  (handle_file_clear b.as_clear s).1,
  refl,
  ground arith,
  ground arith,
  ground arith,
  ground arith,
  ground arith,
  ground arith,
)
job_refused h b status s there e f = absurd (ground arith)
job_refused h b terminate s there e f = absurd (ground arith)
job_refused h b log s there e f = absurd (ground arith)
job_refused h b test s there e f = absurd (ground arith)

abbrev is_none {ℓ} : {A : Type ℓ} → Option A → Bool
is_none none = true
is_none (some a) = false

-- The bodies that a request's handler cannot read.
abbrev pub is_unreadable : Body → Handle → Bool
is_unreadable b status = is_none b.as_status
is_unreadable b update = is_none b.as_update
is_unreadable b terminate = is_none b.as_terminate
is_unreadable b run_objective = is_none b.as_run_objective
is_unreadable b pull = is_none b.as_pull
is_unreadable b clear = is_none b.as_clear
is_unreadable b handle = false

-- A request whose body its handler cannot read changes nothing, and is answered by HTTP status 200
-- with code 0 and "success", for the task number -1.
pub unreadable_answers_success :
    (h : SignalHandle) (b : Body) (handle : Handle) (s : Service)
    → is_unreadable b handle ≡ true
    → call_handle h b handle s
      ≡ some (
        some (record {
          errcode = 200;
          code = pos 0;
          msg = "success";
          task_id = neg 1;
          status = s.control.status;
        }),
        s,
      )
unfolding call_handle handle_update handle_run_objective handle_file_pull handle_file_clear
    handle_terminate handle_status parse_failed
unreadable_answers_success h b status s e = ground arith
unreadable_answers_success h b update s e = ground arith
unreadable_answers_success h b terminate s e = ground arith
unreadable_answers_success h b run_objective s e = ground arith
unreadable_answers_success h b pull s e = ground arith
unreadable_answers_success h b clear s e = ground arith
unreadable_answers_success h b log s e = absurd (ground arith)
unreadable_answers_success h b test s e = absurd (ground arith)

-- Whatever a request with a body that can be read asks for, and whether it is granted, the HTTP
-- status of its reply is 0.
pub readable_errcode_zero :
    (h : SignalHandle) (b : Body) (handle : Handle) (s : Service) {r : Response} {t : Service}
    → is_unreadable b handle ≡ false
    → call_handle h b handle s ≡ some (some r, t)
    → r.errcode ≡ 0
unfolding call_handle handle_update handle_run_objective handle_file_pull handle_file_clear
    handle_terminate handle_status parse_failed reply settle
readable_errcode_zero h b status s e f = ground arith
readable_errcode_zero h b update s e f = ground arith
readable_errcode_zero h b terminate s e f = ground arith
readable_errcode_zero h b run_objective s e f = ground arith
readable_errcode_zero h b pull s e f = ground arith
readable_errcode_zero h b clear s e f = ground arith
readable_errcode_zero h b log s e f = absurd (ground arith)
readable_errcode_zero h b test s e f = absurd (ground arith)

-- Every entry of the table can be reached: its address, with any method, finds its own handler.
pub routes_reached :
    (method : String)
    → All (λ item. find_handle item.uri method g_vec_match_item ≡ some item.handle) g_vec_match_item
unfolding find_handle
routes_reached method = (refl, (refl, (refl, (refl, (refl, (refl, (refl, (refl, tt))))))))
