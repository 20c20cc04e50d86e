-- ===== src/Threadpool.antt =====
-- src/target/o_pocket/context/threadpool/threadpool.hpp and taskinfo.hpp: a pool of workers over
-- one bounded queue of tasks with priorities. A task is a `std::function`, so a slot of the queue
-- may hold none; what a task does when it runs is the client's. A method that waits answers
-- `none` while it waits. Threads run `worker_turn` in any order.
pub mod Priority
pub mod Monitor
mod Monitored
pub mod Resize
pub mod Shutdown
mod Tests
use device_broker.Prelude.{
  ℕ, zero, suc, ◌+◌, String, Bool, true, false, Option, none, some, List, [], ◌∷◌, ◌++◌, map, ℤ,
  pos, negsuc, neg, ◌+ℤ◌, ◌-ℤ◌, ltb, leb_ℤ, ltb_ℤ, eq_ℤ, length, ◌||◌, if◌then◌else◌,
}
use device_broker.SafeQueue
use device_broker.SafeQueue.{SafeQueue, insert_sync, insert_async, try_insert, pop_sync, push_async}

-- `T_task_tuple`: task, priority, tag.
pub record TaskTuple {ℓ} (T : Type ℓ) : Type ℓ where
  pub task : Option T
  pub priority : ℤ
  pub tag : String

-- A worker thread: its number in the pool, its start stamp, and its two flags.
pub record Worker : Type 0 where
  pub serial_in_threadpool : ℕ
  pub stamp_start : ℕ
  pub is_launched : Bool
  pub is_stop_run : Bool
  pub is_block_run : Bool

unfoldable pub make_worker : ℕ → Worker
make_worker serial = record {
  serial_in_threadpool = serial;
  stamp_start = 0;
  is_launched = false;
  is_stop_run = true;
  is_block_run = true;
}

unfoldable pub launch : ℕ → Worker → Worker
launch now w = if w.is_launched then w else record w {
  is_stop_run = false;
  is_block_run = false;
  is_launched = true;
  stamp_start = now;
}

-- `compare_exchange_strong` writes only where the flag holds what is expected.
unfoldable pub block : Worker → Worker
block w = if w.is_block_run then w else record w { is_block_run = true }

unfoldable pub unblock : Worker → Worker
unblock w = if w.is_block_run then record w { is_block_run = false } else w

unfoldable pub shutdown_async : Worker → Worker
shutdown_async w = record w { is_stop_run = true; is_block_run = false }

-- One round of the thread's `while (true)`: it ends, waits to be unblocked, or runs its entity.
pub data Turn : Type 0 where
  exits waits runs : Turn

unfoldable pub worker_turn : Worker → Turn
worker_turn w =
    if w.is_stop_run then Turn.exits else if w.is_block_run then Turn.waits else Turn.runs

-- `for (int i = 0; i < n; i++)` by the rounds left; worker i has number i + 1.
new_workers : ℕ → ℕ → ℕ → List Worker
unfolding launch make_worker
new_workers zero i now = []
new_workers (suc n) i now = launch now (make_worker (i + 1)) ∷ new_workers n (i + 1) now

abbrev rounds : ℤ → ℕ
rounds (pos n) = n
rounds (negsuc n) = 0

pub record Threadpool {ℓ} (T : Type ℓ) : Type ℓ where
  pub task_queue : SafeQueue (TaskTuple T)
  pub worker_list : List Worker
  pub inital_worker_num : ℤ
  pub monitor_task_info_list : Option (SafeQueue (T × String))
  pub is_start_works : Bool

module _ {ℓ} {T : Type ℓ} where
  unfoldable pub make :
      ℤ → ℕ → Option (SafeQueue (TaskTuple T)) → Option (SafeQueue (T × String)) → Threadpool T
  unfolding SafeQueue.make
  make workers limit bound monitor = record {
    task_queue = elim bound [ none ↦ SafeQueue.make limit | some q ↦ q ];
    worker_list = [];
    inital_worker_num = workers;
    monitor_task_info_list = monitor;
    is_start_works = false;
  }

  -- The predicate of the six `enqueue_task_*`.
  abbrev pub not_before : ℤ → TaskTuple T → Bool
  not_before priority cur = leb_ℤ priority cur.priority

  unfoldable pub enqueue_task_sync : T → ℤ → String → Threadpool T → Option (Threadpool T)
  enqueue_task_sync t priority tag p =
      elim (insert_sync (not_before priority)
        (record { task = some t; priority = priority; tag = tag }) p.task_queue) [
          | none ↦ none
          | some q ↦ some (record p { task_queue = q })
        ]

  unfoldable pub enqueue_task_async : T → ℤ → String → Threadpool T → ℤ × Threadpool T
  enqueue_task_async t priority tag p =
      let (ret, q) =
        insert_async (not_before priority)
          (record { task = some t; priority = priority; tag = tag }) p.task_queue in
      (ret, record p { task_queue = q })

  unfoldable pub enqueue_task_try : T → ℤ → String → Threadpool T → ℤ × Threadpool T
  enqueue_task_try t priority tag p =
      let (ret, q) =
        try_insert (not_before priority) (record { task = some t; priority = priority; tag = tag })
          p.task_queue in
      (ret, record p { task_queue = q })

  -- A full or stopped monitor list refuses the task, which then runs unmonitored.
  unfoldable pub make_and_register_task_info :
      T → String → Option (SafeQueue (T × String)) → Option (SafeQueue (T × String))
  make_and_register_task_info t tag none = none
  make_and_register_task_info t tag (some monitor) = some (push_async (t, tag) monitor).1

  run_popped : Option T → String → Threadpool T → Option T × Threadpool T
  unfolding make_and_register_task_info
  run_popped none tag p = (none, p)
  run_popped (some t) tag p = (
    some t,
    record p {
      monitor_task_info_list = make_and_register_task_info t tag p.monitor_task_info_list;
    },
  )

  -- The task that `execute_task_` runs at the end, if any, and the pool; `none` while it waits.
  unfoldable pub work_each_entity : Threadpool T → Option (Option T × Threadpool T)
  unfolding run_popped
  work_each_entity p =
      elim (pop_sync (record { task = none; priority = pos 0; tag = "" }) p.task_queue) [
        | none ↦ none
        | some (tuple, q) ↦ some (run_popped tuple.task tuple.tag (record p { task_queue = q }))
      ]

  unfoldable pub start_workers : ℕ → Threadpool T → Threadpool T
  unfolding new_workers
  start_workers now p = elim p.worker_list [
    | [] ↦ record p {
      worker_list = new_workers (rounds p.inital_worker_num) 0 now;
      is_start_works = true;
    }
    | _ ∷ _ ↦ p
  ]

  -- The flags that `stop_workers_sync` sets before it joins the workers one by one.
  unfoldable pub stop_workers_sync : Threadpool T → Threadpool T
  stop_workers_sync p = elim p.worker_list [
    | [] ↦ p
    | w ∷ ws ↦ record p {
      task_queue = SafeQueue.stop p.task_queue;
      worker_list = map shutdown_async (w ∷ ws);
    }
  ]

  -- One round of the polling loop: `none` while the queue is not empty.
  unfoldable pub wait_task_empty_shutdown : Threadpool T → Option (Threadpool T)
  unfolding stop_workers_sync
  wait_task_empty_shutdown p =
      if SafeQueue.empty p.task_queue then some (stop_workers_sync p) else none
