-- ===== src/Threadpool/Tests.antt =====
-- The pool's properties at concrete pools (src/target/o_pocket/context/threadpool/threadpool.hpp).
use device_broker.Prelude.{
  ℕ, ◌==◌, ◌≡◌, refl, inl, true, false, none, some, List, [], ◌∷◌, pos, All, arith,
}
use device_broker.SafeQueue
use device_broker.SafeQueue.{SafeQueue, insert_before, insert_sync, pop_sync, push_async}
use device_broker.Threadpool.{TaskTuple, Threadpool, Worker, make, start_workers, enqueue_task_sync}
use device_broker.Threadpool.Priority.{IsSorted, enqueue-IsSorted}
use mathlib.Core.List.{Perm}
use device_broker.Threadpool.Monitor.{make_monitor, monitor_round}
use device_broker.Threadpool.Monitored.{Watched, launched, registered, looked, round-Watched}

abbrev task : ℕ → ℕ → TaskTuple ℕ
task t n = record { task = some t; priority = pos n; tag = "" }

abbrev worker : ℕ → Worker
worker n = record {
  serial_in_threadpool = n;
  stamp_start = 5;
  is_launched = true;
  is_stop_run = false;
  is_block_run = false;
}

-- Two workers, and room for three tasks.
abbrev pool : List (TaskTuple ℕ) → Threadpool ℕ
pool tasks = record {
  task_queue = record { inner_queue = tasks; is_stop_flag = false; limit_len_max = 3 };
  worker_list = worker 1 ∷ worker 2 ∷ [];
  inital_worker_num = pos 2;
  monitor_task_info_list = none;
  is_start_works = true;
}

starts_two : start_workers 5 (make {T = ℕ} (pos 2) 3 none none) ≡ pool []
unfolding start_workers make SafeQueue.make
starts_two = refl

abbrev two_tasks : List (TaskTuple ℕ)
two_tasks = task 7 0 ∷ task 8 1 ∷ []

two_tasks-IsSorted : IsSorted two_tasks
two_tasks-IsSorted = ((omega arith, tt), (tt, tt))

enqueue-IsSorted_example : IsSorted (task 7 0 ∷ task 9 1 ∷ task 8 1 ∷ [])
unfolding enqueue_task_sync insert_sync insert_before
enqueue-IsSorted_example =
    enqueue-IsSorted 9 (pos 1) "" (pool two_tasks) {q = pool (task 7 0 ∷ task 9 1 ∷ task 8 1 ∷ [])}
      two_tasks-IsSorted (inl refl)

-- Two tasks are registered, and the monitor is done with the second one.
abbrev queue_of : List ℕ → SafeQueue ℕ
queue_of tasks = record { inner_queue = tasks; is_stop_flag = false; limit_len_max = 3 }

two_tasks-Watched :
    Watched {A = ℕ} 3
      (4 ∷ 7 ∷ [])
      (7 ∷ [])
      (record { loop_task_info_list = queue_of []; cur_task_list = 4 ∷ [] })
unfolding make_monitor monitor_round SafeQueue.make push_async
two_tasks-Watched =
    looked (λ x. x == 7)
      (registered 7 (queue_of (4 ∷ 7 ∷ [])) (registered 4 (queue_of (4 ∷ [])) launched refl) refl)

-- The next round is done with the other task.
round-Watched_example :
    Perm {A = ℕ} (4 ∷ 7 ∷ []) (7 ∷ 4 ∷ [])
    × All (λ x. (x == 4) ≡ true) (4 ∷ [])
    × All {A = ℕ} (λ x. (x == 4) ≡ false) []
unfolding monitor_round
round-Watched_example = round-Watched (λ x. x == 4) two_tasks-Watched
