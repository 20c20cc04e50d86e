-- ===== src/Broker/Tests.antt =====
-- The service of Broker on the disk of FileSystem/Shelf.
use Prim.Native.Nat.{bit_or}
use device_broker.Prelude.{◌≡◌, ◌⊎◌, refl, inr, true, false, none, some, [], pos, neg}
use device_broker.Requests.{UpdateTaskInfo}
use device_broker.TaskStatus.{busy, running, free, file_pull, file_pull_success, updating}
use device_broker.TaskSuit.{
  signal_come, TaskReturn, SignalHandle, task_none, task_file_opt_file_pull, sigint, wait_task,
}
use device_broker.HttpService.{pull_job, handle_file_pull, handle_update}
use device_broker.Objective.Control.{Control}
use device_broker.FileSystem.Shelf.{Shelf, shelf, one_file}
use device_broker.FileOpt.Jobs.{file_operation_file_pull}
use device_broker.TaskStatus.{initial}
use device_broker.Requests.{ObjectiveRabbitmqTaskInfo}
use device_broker.Broker.{Around, update_downloads}
use device_broker.Broker.Rounds.{Served, at_rest, update_return, pull-Served, update-Served}
use device_broker.Broker.System.{
  waits, ended, Threads, idle, Step, comes, leaves, Reach, here, next, started,
}
use device_broker.Broker.Stale.{no_request, stale_status}
use device_broker.Broker.Lost.{Asleep, lost_post}
use device_broker.Broker.Stop.{ended-sigint}
use device_broker.FileOpt.Server.{server, no_zip, pull_core}

abbrev around : Around Shelf
around = record {
  fs = shelf;
  remote = server;
  zip = no_zip;
  fuel = 1;
  now = 0;
  mq_state = pos 0;
  rounds = [];
  exited = λ n. true;
  signaled = λ n. false;
  exit_status = λ n. n;
  reboot_answer = pos 0;
}

abbrev no_task : ObjectiveRabbitmqTaskInfo
no_task = record {
  metrial_number = pos 0;
  parent_task_id = pos 3;
  username_smb = "";
  password_smb = "";
}

abbrev at_idle : Control
at_idle = record {
  components = record {
    threadpool_down = none;
    threadpool_run_testbed = none;
    threadpool_upload = none;
    rabbimq_msg_mg = false;
    smb_mg = none;
  };
  task = no_task;
  smb_usr = "";
  smb_passwd = "";
  remain_num = pos 0;
  is_running = false;
  to_task_terminate = false;
  is_terminating = false;
  status = initial;
  posted = [];
}

abbrev quiet : SignalHandle
quiet = record { signal_status_sigint = 0 }

abbrev pulled_core : TaskReturn
pulled_core = record { code_msg = "file pull opt success"; code_value = pos 0; task_type = 5 }

pull-Served_example :
    Served around quiet
      (handle_file_pull (some pull_core) (at_rest task_none at_idle))
      one_file
      pulled_core
      (bit_or free file_pull_success)
      free
      one_file
unfolding file_operation_file_pull
pull-Served_example =
    pull-Served around quiet task_none at_idle one_file one_file refl pulled_core pull_core refl

abbrev some_update : UpdateTaskInfo
some_update = record { task_id = pos 1; testbed_pkg_path = "u"; license_file_url = "v" }

-- The program cannot be unpacked, and the service stays busy with the update.
update-Served_example :
    Served around quiet
      (handle_update (some some_update) (at_rest task_none at_idle))
      one_file
      (update_return (neg 4, pos 0))
      (bit_or busy updating)
      running
      (update_downloads around some_update one_file).1
unfolding update_downloads
update-Served_example =
    update-Served around quiet task_none at_idle one_file
      (update_downloads around some_update one_file).1 refl some_update (neg 4) (pos 0)
      (update_downloads around some_update one_file).1 refl (inr (refl, refl, refl))

abbrev stopped_by_signal :
    Reach
      (λ job. true)
      started
      (record started { signals = record { signal_status_sigint = 1 }; thread = ended })
unfolding wait_task signal_come
stopped_by_signal = next (next here (comes 2 refl)) (leaves refl refl refl)

ended-sigint_example : sigint (record { signal_status_sigint = 1 }) ≡ true
ended-sigint_example = ended-sigint stopped_by_signal refl

stale_status_example :
    (s : Threads) × Reach (λ job. true) started s
    × (s.suit.task_entity ≡ none)
    × (s.handler ≡ idle)
    × (s.thread ≡ waits)
    × (s.status.task_state ≡ running)
    × (s.status.device_state ≡ bit_or busy file_pull)
    × ((t : Threads) → Reach no_request s t → (t.status ≡ s.status) × (t.suit.task_entity ≡ none))
stale_status_example = stale_status pull_core pulled_core

lost_post_example :
    (s : Threads) × Reach (λ job. true) started s
    × Asleep (pull_job pull_core) s
    × ((t u : Threads)
        → Asleep (pull_job pull_core) t
        → Step (λ job. true) t u
        → Asleep (pull_job pull_core) u ⊎ (u ≡ record t { thread = waits }))
lost_post_example = lost_post (λ job. true) task_file_opt_file_pull (pull_job pull_core) refl
