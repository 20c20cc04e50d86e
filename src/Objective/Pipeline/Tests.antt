-- ===== src/Objective/Pipeline/Tests.antt =====
-- The pools' properties at concrete messages
-- (src/target/o_pocket/context/logic/objecitve/logic_impl_http_service_objective.cpp).
use device_broker.Prelude.{
  ℕ, ◌+◌, ◌≡◌, refl, Bool, eq_ℤ, length, true, false, none, some, List, [], ◌∷◌, pos, arith,
}
use device_broker.Requests.{RabbitmqMsgTaskInfo}
use device_broker.TaskStatus.{initial}
use device_broker.SafeQueue.{insert_sync, insert_before}
use device_broker.Threadpool.{Threadpool, TaskTuple, enqueue_task_sync}
use device_broker.Objective.{Entity, download, run, upload, Manager}
use device_broker.Objective.Pipeline.{Hand, Pipeline, Step, Reach, started}
use device_broker.Objective.Pipeline.Conserved.{count, queued, held, messages_conserved}
use device_broker.Objective.Pipeline.Deadlock.{entities, Stuck, Stuck-forever, deadlock_reachable}

abbrev message_of : ℕ → RabbitmqMsgTaskInfo
message_of n = record {
  msg_id = pos n;
  parent_task_id = pos 3;
  metrial_path_url = "smb://host/a";
  upload_result_dir_path = "smb://host/r";
}

abbrev manager : Manager
manager = record {
  num_init = 0;
  g_task_end = 0;
  updated_cnt = 0;
  status = initial;
  sent = [];
  cleaned = 0;
}

deadlock_reachable_example :
    (s : Pipeline) × Reach (started 5) s
    × Stuck s
    × (s.accepted ≡ message_of 1 ∷ message_of 2 ∷ message_of 3 ∷ [])
    × (s.run_hand ≡ some (Hand.hands (upload (message_of 3))))
    × (entities s.run.task_queue.inner_queue
        ≡ some (run (message_of 1)) ∷ some (run (message_of 2)) ∷ [])
    × (s.ended ≡ [])
    × (s.manager.g_task_end ≡ 0)
deadlock_reachable_example = deadlock_reachable 5 (message_of 1) (message_of 2) (message_of 3)

-- The state that three messages lead to.
abbrev after_three : Pipeline
after_three = (deadlock_reachable 5 (message_of 1) (message_of 2) (message_of 3)).0

abbrev is_second : RabbitmqMsgTaskInfo → Bool
is_second info = eq_ℤ info.msg_id (pos 2)

messages_conserved_example :
    (count is_second after_three.accepted
      ≡ count is_second after_three.ended
        + queued is_second after_three.down
        + queued is_second after_three.run
        + held is_second after_three.down_hand
        + held is_second after_three.run_hand)
    × (length after_three.ended ≡ after_three.manager.g_task_end)
messages_conserved_example =
    messages_conserved is_second 5
      (deadlock_reachable 5 (message_of 1) (message_of 2) (message_of 3)).1

abbrev waiting_task : Entity → TaskTuple Entity
waiting_task e = record { task = some e; priority = pos 0; tag = "" }

abbrev pool : List (TaskTuple Entity) → ℕ → Threadpool Entity
pool tasks limit = record {
  task_queue = record { inner_queue = tasks; is_stop_flag = false; limit_len_max = limit };
  worker_list = [];
  inital_worker_num = pos 1;
  monitor_task_info_list = none;
  is_start_works = true;
}

-- The run worker holds an upload before two queued runs; a download worker waits too.
abbrev deadlocked : List (TaskTuple Entity) → List RabbitmqMsgTaskInfo → Pipeline
deadlocked downs accepted = record {
  down = pool downs 3;
  run = pool (waiting_task (run (message_of 2)) ∷ waiting_task (run (message_of 1)) ∷ []) 2;
  down_hand = some (Hand.hands (run (message_of 4)));
  run_hand = some (Hand.hands (upload (message_of 3)));
  manager = manager;
  accepted = accepted;
  ended = [];
}

abbrev four : List RabbitmqMsgTaskInfo
four = message_of 1 ∷ message_of 2 ∷ message_of 3 ∷ message_of 4 ∷ []

abbrev five : List RabbitmqMsgTaskInfo
five = message_of 1 ∷ message_of 2 ∷ message_of 3 ∷ message_of 4 ∷ message_of 5 ∷ []

deadlocked-Stuck : Stuck (deadlocked [] four)
deadlocked-Stuck = record {
  waiting = (upload (message_of 3), refl);
  full = omega arith;
  running = refl;
}

-- Another message comes.
abbrev next_download : TaskTuple Entity
next_download = record { task = some (download (message_of 5)); priority = pos 1; tag = "" }

one_more : Reach (deadlocked [] four) (deadlocked (next_download ∷ []) five)
unfolding enqueue_task_sync insert_sync insert_before
one_more = Reach.next Reach.here (Step.posts (message_of 5) "" refl refl)

Stuck-forever_example :
    ((deadlocked (next_download ∷ []) five).run ≡ (deadlocked [] four).run)
    × ((deadlocked (next_download ∷ []) five).run_hand ≡ (deadlocked [] four).run_hand)
Stuck-forever_example = Stuck-forever deadlocked-Stuck one_more
