-- ===== src/SafeQueue/Tests.antt =====
-- The queue's properties at concrete queues (src/target/o_pocket/context/threadpool/safe_queue.hpp).
use mathlib.Core.List.{Perm}
use device_broker.Prelude.{
  ℕ, ◌+◌, ◌≤◌, ◌≡◌, inl, refl, Bool, true, false, none, [], ◌∷◌, ◌++◌, neg, leb, length, arith,
}
use device_broker.SafeQueue.{
  SafeQueue, make, push_sync, push_async, try_push, pop_sync, pop_async, insert_async,
  insert_before,
}
use device_broker.SafeQueue.Fifo.{FifoStep, FifoReach, FifoReach-fifo}
use device_broker.SafeQueue.Contents.{Step, Reach, Reach-perm}
use device_broker.SafeQueue.Wakeups.{Waiting, nobody, notify_one, wait}
use device_broker.SafeQueue.Wakeups.Pops.{no_lost_wakeup}
use device_broker.SafeQueue.Wakeups.Pushes.{no_lost_room}
use device_broker.SafeQueue.Wakeups

-- Two items in a queue for three.
abbrev two_items : SafeQueue ℕ
two_items = record { inner_queue = 1 ∷ 2 ∷ []; is_stop_flag = false; limit_len_max = 3 }

abbrev three_items : SafeQueue ℕ
three_items = record { inner_queue = 1 ∷ 2 ∷ 3 ∷ []; is_stop_flag = false; limit_len_max = 3 }

-- A full queue makes a push wait, fail by time-out, or fail at once.
full_push :
    (push_sync 4 three_items ≡ none)
    × (try_push 4 three_items ≡ (neg 1, three_items))
    × (push_async 4 three_items ≡ (neg 1, three_items))
unfolding push_sync try_push push_async
full_push = (refl, refl, refl)

push_and_pop :
    FifoReach two_items
      (3 ∷ [])
      (1 ∷ [])
      (record { inner_queue = 2 ∷ 3 ∷ []; is_stop_flag = false; limit_len_max = 3 })
unfolding push_sync pop_async
push_and_pop =
    FifoReach.next (FifoReach.next FifoReach.here (FifoStep.pushed_sync 3 two_items refl refl))
      (FifoStep.popped_async 0 three_items refl)

FifoReach-fifo_example : two_items.inner_queue ++ 3 ∷ [] ≡ 1 ∷ [] ++ 2 ∷ 3 ∷ []
FifoReach-fifo_example = FifoReach-fifo push_and_pop

-- 0 goes before the first item, 3 last.
abbrev below : ℕ → ℕ → Bool
below v x = leb v x

insert_and_pop : Reach two_items (0 ∷ []) (0 ∷ []) two_items
unfolding insert_async insert_before pop_async
insert_and_pop =
    Reach.next (Reach.next Reach.here (Step.inserted_async (below 0) 0 two_items refl)) (
      Step.fifo (
        FifoStep.popped_async 9
          (record { inner_queue = 0 ∷ 1 ∷ 2 ∷ []; is_stop_flag = false; limit_len_max = 3 }) refl))

Reach-perm_example : Perm (two_items.inner_queue ++ 0 ∷ []) (0 ∷ two_items.inner_queue)
Reach-perm_example = Reach-perm insert_and_pop

-- Two threads sleep on an empty queue, and a push wakes one.
abbrev one_woken : Waiting ℕ
one_woken = record {
  queue = record { inner_queue = 5 ∷ []; is_stop_flag = false; limit_len_max = 3 };
  popping = record { asleep = 1; woken = 1 };
  pushing = record { asleep = 0; woken = 0 };
  flagged = 0;
  half_notified = 0;
}

wakes_one : Wakeups.Reach true (nobody 3) one_woken
unfolding make pop_sync push_sync notify_one wait
wakes_one =
    let r1 =
      Wakeups.Reach.next Wakeups.Reach.here (Wakeups.Step.pop_sleeps 0 (inl refl) refl refl) in
    let r2 = Wakeups.Reach.next r1 (Wakeups.Step.pop_sleeps 0 (inl refl) refl refl) in
    Wakeups.Reach.next r2 (Wakeups.Step.pushes_sync 5 (inl refl) refl refl refl)

no_lost_wakeup_example : length one_woken.queue.inner_queue ≤ 1
no_lost_wakeup_example = no_lost_wakeup 3 wakes_one refl (omega arith)

-- A push fills a queue for one, two more wait, and a pop wakes one of them.
abbrev room_for_one : Waiting ℕ
room_for_one = record {
  queue = record { inner_queue = []; is_stop_flag = false; limit_len_max = 1 };
  popping = record { asleep = 0; woken = 0 };
  pushing = record { asleep = 1; woken = 1 };
  flagged = 0;
  half_notified = 0;
}

pushes_wait : Wakeups.Reach false (nobody 1) room_for_one
unfolding make pop_async push_async push_sync notify_one wait
pushes_wait =
    let r1 = Wakeups.Reach.next Wakeups.Reach.here (Wakeups.Step.pushes_async 5 refl refl) in
    let r2 = Wakeups.Reach.next r1 (Wakeups.Step.push_sleeps 6 (inl refl) refl refl) in
    let r3 = Wakeups.Reach.next r2 (Wakeups.Step.push_sleeps 7 (inl refl) refl refl) in
    Wakeups.Reach.next r3 (Wakeups.Step.takes_async 0 refl refl)

no_lost_room_example : 1 ≤ length room_for_one.queue.inner_queue + 1
no_lost_room_example = no_lost_room 1 pushes_wait refl (omega arith)
