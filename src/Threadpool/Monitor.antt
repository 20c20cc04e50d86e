-- ===== src/Threadpool/Monitor.antt =====
-- LoopMonitor of src/target/o_pocket/context/threadpool/threadpool.hpp and TaskTimer of taskinfo.hpp:
-- the thread that looks at tasks until they are done with, and the times of a task. A time is in
-- nanoseconds. What the monitor answers of a task in one round is an argument.
use device_broker.Prelude.{
  ℕ, ◌-◌, ◌/◌, Bool, true, false, not, List, [], ◌∷◌, ◌++◌, ℤ, pos, neg, leb, if◌then◌else◌,
}
use device_broker.SafeQueue
use device_broker.SafeQueue.{SafeQueue, pop_async_list}

pub record TaskTimer : Type 0 where
  pub stamp_start : ℕ
  pub stamp_end : ℕ
  pub run_elapsed_ms : ℤ
  pub is_end : Bool
  pub is_start : Bool

-- `run_elapsed_ms` is not initialised: what it holds first is an argument.
unfoldable pub make_timer : ℕ → ℤ → TaskTimer
make_timer now garbage = record {
  stamp_start = now;
  stamp_end = now;
  run_elapsed_ms = garbage;
  is_end = false;
  is_start = false;
}

-- `duration_cast<milliseconds>(b - a).count()`, towards 0; the system's clock may be set back.
unfoldable pub duration_ms : ℕ → ℕ → ℤ
duration_ms a b = if leb a b then pos ((b - a) / 1000000) else neg ((a - b) / 1000000)

unfoldable pub start : ℕ → TaskTimer → TaskTimer
start now t = if t.is_start then t else record t { stamp_start = now; is_start = true }

unfoldable pub end : ℕ → TaskTimer → TaskTimer
unfolding duration_ms
end now t =
    if t.is_end
    then t
    else record t { stamp_end = now; run_elapsed_ms = duration_ms t.stamp_start now; is_end = true }

unfoldable pub get_elapsed_ms : ℕ → TaskTimer → ℤ
unfolding duration_ms
get_elapsed_ms now t = if not t.is_start then pos 0 else duration_ms t.stamp_start now

unfoldable pub get_end_elapsed_ms : TaskTimer → ℤ
get_end_elapsed_ms t = if not t.is_end then pos 0 else t.run_elapsed_ms

-- `execute_task_`, around a task that runs from `begun` to `ended` and does not throw.
unfoldable pub execute_task : ℕ → ℕ → TaskTimer → TaskTimer
unfolding start end
execute_task begun ended t = end ended (start begun t)

pub record LoopMonitor (A : Type 0) : Type 0 where
  pub loop_task_info_list : SafeQueue A
  pub cur_task_list : List A

module _ {A : Type 0} where
  unfoldable pub make_monitor : ℕ → LoopMonitor A
  unfolding SafeQueue.make
  make_monitor monitor_max_num = record {
    loop_task_info_list = SafeQueue.make monitor_max_num;
    cur_task_list = [];
  }

  -- The walk of a round: the tasks that the monitor is done with, and the others.
  unfoldable pub walk : (A → Bool) → List A → List A × List A
  walk monitor [] = ([], [])
  walk monitor (x ∷ xs) =
      let (erased, kept) = walk monitor xs in
      if monitor x then (x ∷ erased, kept) else (erased, x ∷ kept)

  -- One round of the thread: what was erased, and the monitor after it.
  unfoldable pub monitor_round : (A → Bool) → LoopMonitor A → List A × LoopMonitor A
  unfolding pop_async_list walk
  monitor_round monitor m =
      let (ret, take_list, queue) = pop_async_list [] m.loop_task_info_list in
      let (erased, kept) = walk monitor (m.cur_task_list ++ take_list) in
      (erased, record { loop_task_info_list = queue; cur_task_list = kept })
