-- ===== src/Broker/Rounds.antt =====
-- A request that is accepted, up to the end of its task.
use Prim.Native.Nat.{bit_or}
use device_broker.Prelude.{
  ap, sym, true, Bool, Option, ℕ, ◌≡◌, refl, inl, inr, ◌⊎◌, [], Bool-cases, false, none, some, ◌||◌,
  ℤ, pos, neg, nonzero, if◌then◌else◌,
}
use device_broker.Requests.{UpdateTaskInfo, TaskFileOperationFilePull, TaskFileOperationFileClear}
use device_broker.TaskStatus.{
  file_pull, file_clear, free, updated, update_success, busy, updating, running, divorced,
  file_pull_fail, file_pull_success, file_clear_fail, file_clear_success,
}
use device_broker.TaskSuit.{
  run_task, StateEnum, task_update, task_file_opt_file_pull, task_file_opt_file_clear, TaskReturn,
  SignalHandle,
}
use device_broker.HttpService.{
  Job, pull_job, clear_job, update_job, Service, Response, handle_file_pull, handle_file_clear,
  handle_update,
}
use device_broker.FileSystem.Throwing.{done, Outcome}
use device_broker.FileOpt.{update_testbed_and_replace, down_file_and_replace}
use device_broker.FileOpt.Jobs.{file_operation_file_pull, file_operation_file_clear}
use device_broker.Objective.Control.{Control}
use device_broker.Broker.{Device, after_filter, call_job, Around, update_downloads, do_once}

-- A service with an empty slot, which nobody has told to stop.
abbrev pub at_rest : StateEnum → Control → Service
at_rest type c = record {
  suit = record { to_stop = false; task_entity = none; task_type = type };
  control = c;
}

abbrev reporting : Control → ℕ → ℕ → Control
reporting c device task = record c { status = record { task_state = task; device_state = device } }

-- What an update returns by the answers of its two downloads, and the states that it reports.
abbrev pub update_return : ℤ × ℤ → TaskReturn
update_return rets = record {
  code_msg =
      if nonzero rets.0 || nonzero rets.1
      then "update testbed and replace fail"
      else "update testbed and replace success";
  code_value = if nonzero rets.0 then neg 1 else if nonzero rets.1 then neg 2 else pos 0;
  task_type = 2;
}

abbrev pub update_states : ℤ × ℤ → ℕ × ℕ
update_states rets =
    if nonzero rets.0 || nonzero rets.1
    then (bit_or busy updating, running)
    else (bit_or (bit_or free updated) update_success, divorced)

module _ {S : Type 0} (around : Around S) (h : SignalHandle) where
  -- The response of a handler is a success, and the next round of the service thread calls the task: it
  -- returns `ret`, frees the slot, and leaves the device and the disk in the states given.
  pub record Served (request : Response × Service) (disk : S) (ret : TaskReturn) (device task : ℕ)
      (disk' : S) : Type 0 where
    pub accepted : request.0.code ≡ pos 0
    pub after : Service
    pub run : do_once around h request.1 disk ≡ some (false, ret, some (after, disk'))
    pub freed : after.suit.task_entity ≡ none
    pub device_state : after.control.status.device_state ≡ device
    pub task_state : after.control.status.task_state ≡ task

  module _ (type : StateEnum) (c : Control) (disk disk' : S)
      (quiet : h.signal_status_sigint ≡ 0) where
    -- What comes of the licence: it is fetched where the program's download answers 0, and not otherwise.
    abbrev pub Licence : UpdateTaskInfo → ℤ → ℤ → S → Type 0
    Licence info first second mid =
        ((nonzero first ≡ false)
          × Path (Outcome ℤ × S)
              (down_file_and_replace around.remote around.fs around.fuel info.license_file_url
                "/var/TESTBED/testbed_objective" "/var/TESTBED/tmp" mid)
              (done second, disk'))
        ⊎ ((nonzero first ≡ true) × (second ≡ pos 0) × (mid ≡ disk'))

    -- A round that finds a job.
    do_once-calls :
        (job : Job) (kind : StateEnum) (now later : Control) (ret : TaskReturn)
        → run_task (call_job around) (some job) kind (some (record { control = now; disk = disk }))
          ≡ (ret, some (record { control = later; disk = disk' }))
        → do_once around h
            (record {
              suit = record { to_stop = false; task_entity = some job; task_type = kind };
              control = now;
            })
            disk
          ≡ some (false, ret, some (at_rest kind later, disk'))
    unfolding do_once
    do_once-calls job kind now later ret e =
        let after : TaskReturn × Option (Device S)
            → Option (Bool × TaskReturn × Option (Service × S)) =
          λ p. after_filter around (some (false, p.0, (at_rest kind now).suit, p.1)) in
        rw quiet (ap after e)

    pull_job-reports :
        (ret : TaskReturn) (info : TaskFileOperationFilePull) (now : Control)
        → file_operation_file_pull around.fs around.remote info disk ≡ (done ret, disk')
        → call_job around (pull_job info) (some (record { control = now; disk = disk })) ≡ (
          ret,
          some (record {
            control =
                reporting now
                  (bit_or free
                    (if nonzero ret.code_value then file_pull_fail else file_pull_success))
                  free;
            disk = disk';
          }),
        )
    unfolding call_job
    pull_job-reports ret info now e = elim (Bool-cases (nonzero ret.code_value)) [
      | inl fails ↦ rw (e, fails) refl
      | inr works ↦ rw (e, works) refl
    ]

    -- A request to pull files that finds the slot empty is answered with success. Where the handler has
    -- written the states before the service thread's next round, that round runs the pull on the disk,
    -- frees the slot again, and reports that the device is free, with success exactly where the pull
    -- returns 0; no signal has come, and the pull neither throws nor goes on for ever.
    pub pull-Served :
        (ret : TaskReturn) (info : TaskFileOperationFilePull)
        → file_operation_file_pull around.fs around.remote info disk ≡ (done ret, disk')
        → Served
            (handle_file_pull (some info) (at_rest type c))
            disk
            ret
            (bit_or free (if nonzero ret.code_value then file_pull_fail else file_pull_success))
            free
            disk'
    unfolding handle_file_pull run_task
    pull-Served ret info e =
        let now : Control = reporting c (bit_or busy file_pull) running in
        let device : ℕ =
          bit_or free (if nonzero ret.code_value then file_pull_fail else file_pull_success) in
        record {
          accepted = refl;
          after = at_rest task_file_opt_file_pull (reporting now device free);
          run =
              do_once-calls (pull_job info) task_file_opt_file_pull now (reporting now device free)
                ret (pull_job-reports ret info now e);
          freed = refl;
          device_state = refl;
          task_state = refl;
        }

    clear_job-reports :
        (ret : TaskReturn) (info : TaskFileOperationFileClear) (now : Control)
        → file_operation_file_clear around.fs info disk ≡ (done ret, disk')
        → call_job around (clear_job info) (some (record { control = now; disk = disk })) ≡ (
          ret,
          some (record {
            control =
                reporting now
                  (bit_or free
                    (if nonzero ret.code_value then file_clear_fail else file_clear_success))
                  free;
            disk = disk';
          }),
        )
    unfolding call_job
    clear_job-reports ret info now e = elim (Bool-cases (nonzero ret.code_value)) [
      | inl fails ↦ rw (e, fails) refl
      | inr works ↦ rw (e, works) refl
    ]

    -- The same for a request to clear files.
    pub clear-Served :
        (ret : TaskReturn) (info : TaskFileOperationFileClear)
        → file_operation_file_clear around.fs info disk ≡ (done ret, disk')
        → Served
            (handle_file_clear (some info) (at_rest type c))
            disk
            ret
            (bit_or free (if nonzero ret.code_value then file_clear_fail else file_clear_success))
            free
            disk'
    unfolding handle_file_clear run_task
    clear-Served ret info e =
        let now : Control = reporting c (bit_or busy file_clear) running in
        let device : ℕ =
          bit_or free (if nonzero ret.code_value then file_clear_fail else file_clear_success) in
        record {
          accepted = refl;
          after = at_rest task_file_opt_file_clear (reporting now device free);
          run =
              do_once-calls (clear_job info) task_file_opt_file_clear now
                (reporting now device free) ret (clear_job-reports ret info now e);
          freed = refl;
          device_state = refl;
          task_state = refl;
        }

    update_job-reports :
        (info : UpdateTaskInfo) (rets : ℤ × ℤ)
        → let now = reporting c (bit_or busy updating) running in
          update_downloads around info disk ≡ (done rets, disk')
          → call_job around (update_job info) (some (record { control = now; disk = disk })) ≡ (
            update_return rets,
            some (record {
              control = reporting now (update_states rets).0 (update_states rets).1;
              disk = disk';
            }),
          )
    unfolding call_job
    update_job-reports info rets e = elim (Bool-cases (nonzero rets.0)) [
      | inl first ↦ rw (e, first) refl
      | inr got ↦ elim (Bool-cases (nonzero rets.1)) [
        | inl second ↦ rw (e, got, second) refl
        | inr both ↦ rw (e, got, both) refl
      ]
    ]

    -- The two downloads of an update, from what each of them does.
    both_downloads :
        (info : UpdateTaskInfo) (first second : ℤ) (mid : S)
        → update_testbed_and_replace around.remote around.fs around.fuel around.zip
            info.testbed_pkg_path "/var/TESTBED/testbed_objective" "/var/TESTBED/tmp" [] disk
          ≡ (done first, mid)
        → Licence info first second mid
        → update_downloads around info disk ≡ (done (first, second), disk')
    unfolding update_downloads
    both_downloads info first second mid e (inl (works, l)) = rw (e, works, l) refl
    both_downloads info first second mid e (inr (fails, no_licence, same)) =
        rw (e, fails, no_licence, sym same) refl

    -- A request to update that finds the slot empty is answered with success. Where the handler has written
    -- the states before the service thread's next round, that round replaces the program, and the licence
    -- where that answers 0, and frees the slot. Where both answer 0 the device is free and updated; where
    -- one fails, it is still reported busy with an update that runs, though the slot is free. No signal has
    -- come, and the downloads neither throw nor go on for ever.
    pub update-Served :
        (info : UpdateTaskInfo) (first second : ℤ) (mid : S)
        → update_testbed_and_replace around.remote around.fs around.fuel around.zip
            info.testbed_pkg_path "/var/TESTBED/testbed_objective" "/var/TESTBED/tmp" [] disk
          ≡ (done first, mid)
        → Licence info first second mid
        → Served
            (handle_update (some info) (at_rest type c))
            disk
            (update_return (first, second))
            (update_states (first, second)).0
            (update_states (first, second)).1
            disk'
    unfolding handle_update run_task
    update-Served info first second mid fetched licence =
        let rets : ℤ × ℤ = (first, second) in
        let e = both_downloads info first second mid fetched licence in
        let now : Control = reporting c (bit_or busy updating) running in
        let later : Control = reporting now (update_states rets).0 (update_states rets).1 in
        record {
          accepted = refl;
          after = at_rest task_update later;
          run =
              do_once-calls (update_job info) task_update now later (update_return rets)
                (update_job-reports info rets e);
          freed = refl;
          device_state = refl;
          task_state = refl;
        }
