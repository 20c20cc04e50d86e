-- ===== src/Broker.antt =====
-- The service as a whole: the closures that the handlers of
-- src/target/o_pocket/context/http_handle/http_service_handle_objective.cpp post, over the objective, the
-- file operations and the disk that they work on, and the service thread that calls them
-- (context/threadloop/threadloop_objective.{h,cpp}).
mod Rounds
pub mod System
mod Stale
mod Lost
mod Stop
mod Tests
use device_broker.Prelude.{
  ℕ, String, Bool, Option, none, some, List, [], ◌∷◌, ℤ, pos, nonzero, if◌then◌else◌,
}
use device_broker.Requests.{UpdateTaskInfo}
use device_broker.TaskSuit.{TaskReturn, TaskSuitBase, default_return, SignalHandle, task_filter}
use device_broker.HttpService.{
  Job, reboot_job, update_job, objective_job, pull_job, clear_job, Service, file_pull_job,
  file_clear_job,
}
use device_broker.Objective.Poll.{Round}
use device_broker.Objective.Control.{
  Control, run_objective, reboot, objective_update_device_testbed,
}
use device_broker.FileSystem.{Disk}
use device_broker.FileSystem.Throwing.{Action, Outcome, done, raised, unending, pure, ◌>>=◌}
use device_broker.Archive.{Zip}
use device_broker.FileOpt.{Remote, update_testbed_and_replace, down_file_and_replace}
use device_broker.FileOpt.Jobs.{file_operation_file_pull, file_operation_file_clear}

-- What a job may use and what others answer it: the disk, the servers, the messages that arrive for an
-- objective, and `system`.
pub record Around (S : Type 0) : Type 0 where
  pub fs : Disk S
  pub remote : Remote S
  pub zip : Zip S
  pub fuel : ℕ
  pub now : ℕ
  pub mq_state : ℤ
  pub rounds : List Round
  pub exited : ℤ → Bool
  pub signaled : ℤ → Bool
  pub exit_status : ℤ → ℤ
  pub reboot_answer : ℤ

-- The device: the objective with the states that it reports, and the disk.
pub record Device (S : Type 0) : Type 0 where
  pub control : Control
  pub disk : S

module _ {S : Type 0} (around : Around S) where
  -- The two downloads of objective_update_device_testbed, the second where the first answers 0.
  unfoldable pub update_downloads : UpdateTaskInfo → Action S (ℤ × ℤ)
  unfolding update_testbed_and_replace down_file_and_replace
  update_downloads info = do
    ret ←
        update_testbed_and_replace around.remote around.fs around.fuel around.zip
          info.testbed_pkg_path "/var/TESTBED/testbed_objective" "/var/TESTBED/tmp" []
    if nonzero ret then pure (ret, pos 0) else do
      ret' ←
          down_file_and_replace around.remote around.fs around.fuel info.license_file_url
            "/var/TESTBED/testbed_objective" "/var/TESTBED/tmp"
      pure (ret, ret')

  -- A file operation that threw has ended the process, and one may not end: `none`.
  after_file :
      {A : Type 0}
      → (A → Control → TaskReturn × Control)
      → Control
      → Outcome A × S
      → TaskReturn × Option (Device S)
  after_file report c (done a, disk) =
      let (ret, c') = report a c in (ret, some (record { control = c'; disk = disk }))
  after_file report c (raised, disk) = (default_return, none)
  after_file report c (unending, disk) = (default_return, none)

  unfoldable pub call_job : Job → Option (Device S) → TaskReturn × Option (Device S)
  unfolding after_file reboot file_pull_job file_clear_job objective_update_device_testbed
  call_job job none = (default_return, none)
  call_job reboot_job (some d) =
      let (ret, status) =
        reboot around.exited around.signaled around.exit_status around.reboot_answer
          d.control.status in
      (ret, some (record d { control = record d.control { status = status } }))
  call_job (update_job info) (some d) =
      after_file
        (λ rets c.
          let (ret, status) =
            objective_update_device_testbed (λ url. rets.0) (λ url. rets.1) info c.status in
          (ret, record c { status = status }))
        d.control (update_downloads info d.disk)
  call_job (objective_job info) (some d) =
      elim (run_objective around.now around.mq_state around.rounds info d.control) [
        | none ↦ (default_return, none)
        | some (ret, c) ↦ (ret, some (record d { control = c }))
      ]
  call_job (pull_job info) (some d) =
      after_file
        (λ ret c.
          let (ret', status) = file_pull_job ret c.status in (ret', record c { status = status }))
        d.control (file_operation_file_pull around.fs around.remote info d.disk)
  call_job (clear_job info) (some d) =
      after_file
        (λ ret c.
          let (ret', status) = file_clear_job ret c.status in (ret', record c { status = status }))
        d.control (file_operation_file_clear around.fs info d.disk)

  after_filter :
      Option (Bool × TaskReturn × TaskSuitBase Job × Option (Device S))
      → Option (Bool × TaskReturn × Option (Service × S))
  after_filter none = none
  after_filter (some (to_terminate, ret, suit, none)) = some (to_terminate, ret, none)
  after_filter (some (to_terminate, ret, suit, some d)) =
      some (to_terminate, ret, some (record { suit = suit; control = d.control }, d.disk))

  -- One `do_once` of the service thread: whether it is to end, what the task returned, and the service
  -- after it, with the disk.
  unfoldable pub do_once :
      SignalHandle → Service → S → Option (Bool × TaskReturn × Option (Service × S))
  unfolding task_filter after_filter
  do_once h s disk =
      after_filter
        (task_filter (call_job) h s.suit (some (record { control = s.control; disk = disk })))
