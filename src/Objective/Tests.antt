-- ===== src/Objective/Tests.antt =====
-- The objective's properties at concrete messages and runs
-- (src/target/o_pocket/context/logic/objecitve/logic_impl_http_service_objective.cpp).
use device_broker.Prelude.{
  ℕ, ◌-◌, ◌≤◌, ◌≡◌, refl, false, none, some, List, [], ◌∷◌, ◌++◌, ℤ, pos, neg, if◌then◌else◌, leb,
  All, ◌==◌,
}
use device_broker.Requests.{RabbitmqMsgTaskInfo, ObjectiveRabbitmqTaskInfo}
use device_broker.TaskStatus.{initial}
use device_broker.Objective.{Entity, download, run, upload, Manager, retry, call_entity}
use device_broker.Objective.Accounting.{Accounts, entity-Accounts}
use device_broker.Objective.Poll.{
  Round, Poll, rabbitmq_msg_poll, received, downloads, Ends, poll_lem,
}
use device_broker.Objective.Control.{Control}
use device_broker.Objective.Kill.{
  Listed, IsListed, printed, kill_testbed_progress, stoi, Killed, kills_listed,
}

abbrev message_of : ℕ → RabbitmqMsgTaskInfo
message_of n = record {
  msg_id = pos n;
  parent_task_id = pos 3;
  metrial_path_url = "smb://host/a";
  upload_result_dir_path = "smb://host/r";
}

abbrev manager : Manager
manager = record {
  num_init = 0;
  g_task_end = 0;
  updated_cnt = 0;
  status = initial;
  sent = [];
  cleaned = 0;
}

-- Two failures, then a success.
abbrev third_time : ℕ → ℤ
third_time i = if leb 2 i then pos 0 else neg 7

third_time_works : retry third_time 3 0 (pos 0) ≡ pos 0
unfolding retry
third_time_works = refl

abbrev always_fails : ℕ → ℤ
always_fails i = neg 7

entity-Accounts_example :
    Accounts
      (download (message_of 1))
      manager
      (call_entity always_fails (download (message_of 1)) manager)
entity-Accounts_example = entity-Accounts always_fails (download (message_of 1)) manager

abbrev one_of_each : List ((ℕ → ℤ) × Entity)
one_of_each =
    (third_time, download (message_of 1))
    ∷ (third_time, run (message_of 1))
    ∷ (always_fails, upload (message_of 1))
    ∷ []

-- Nothing there, then two messages of which the second does not parse.
abbrev three_rounds : List Round
three_rounds =
    record { to_task_terminate = false; cur_subtask_msg = ""; ret = neg 1; parsed = none }
    ∷ record {
      to_task_terminate = false;
      cur_subtask_msg = "{}";
      ret = pos 0;
      parsed = some (message_of 1);
    }
    ∷ record { to_task_terminate = false; cur_subtask_msg = "{"; ret = pos 0; parsed = none }
    ∷ []

abbrev two_to_come : Poll
two_to_come = record { remain_num = pos 2; posted = []; status = initial }

abbrev polled : Poll
polled = record {
  remain_num = pos 0;
  posted = download (message_of 1) ∷ [];
  status = record { task_state = 16384; device_state = 1 };
}

polls : rabbitmq_msg_poll three_rounds two_to_come ≡ some polled
unfolding rabbitmq_msg_poll
polls = refl

poll_lem_example :
    (used left : List Round) × (three_rounds ≡ used ++ left)
    × (received used ≤ 2)
    × (pos 0 ≡ pos (2 - received used))
    × (polled.posted ≡ [] ++ downloads used)
    × Ends (2 - received used) left
poll_lem_example = poll_lem three_rounds 2 two_to_come refl polls

abbrev two_materials : ObjectiveRabbitmqTaskInfo
two_materials = record {
  metrial_number = pos 2;
  parent_task_id = pos 3;
  username_smb = "usr";
  password_smb = "pw";
}

abbrev idle : Control
idle = record {
  components = record {
    threadpool_down = none;
    threadpool_run_testbed = none;
    threadpool_upload = none;
    rabbimq_msg_mg = false;
    smb_mg = none;
  };
  task = two_materials;
  smb_usr = "";
  smb_passwd = "";
  remain_num = pos 0;
  is_running = false;
  to_task_terminate = false;
  is_terminating = false;
  status = initial;
  posted = [];
}

-- " 42 T" and "7 M": the kill of 7 fails.
abbrev two_listed : List Listed
two_listed =
    record { blanks = 1; digits = 52 ∷ 50 ∷ []; rest = 84 ∷ []; pid = 42 }
    ∷ record { blanks = 0; digits = 55 ∷ []; rest = 77 ∷ []; pid = 7 }
    ∷ []

abbrev seven_fails : ℕ → ℤ
seven_fails pid = if pid == 7 then pos 1 else pos 0

two_listed-IsListed : All IsListed two_listed
unfolding stoi
two_listed-IsListed = (
  record { digits_only = (refl, (refl, tt)); number = refl; one_line = (refl, tt) },
  (record { digits_only = (refl, tt); number = refl; one_line = (refl, tt) }, tt),
)

kills_listed_example :
    (r : ℤ × List ℕ) × (kill_testbed_progress (some (printed two_listed)) seven_fails ≡ some r)
    × Killed seven_fails (42 ∷ 7 ∷ []) r
kills_listed_example = kills_listed two_listed seven_fails two_listed-IsListed
