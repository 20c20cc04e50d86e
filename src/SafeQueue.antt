-- ===== src/SafeQueue.antt =====
-- src/target/o_pocket/context/threadpool/safe_queue.hpp, class SafeQueue.
-- An operation is one critical section under `mutex_`, read at the moment its wait ends: a
-- `wait` whose predicate fails goes on waiting (`none`), a `wait_for` whose predicate fails has
-- timed out. The condition variables carry no data: a notified thread reads its predicate again.
pub mod Fifo
pub mod Contents
pub mod Capacity
pub mod Stop
pub mod Wakeups
mod Tests
use device_broker.Prelude.{
  ℕ, Bool, true, false, not, ◌||◌, Option, none, some, List, [], ◌∷◌, ◌++◌, ℤ, pos, neg, ltb, leb,
  length, if◌then◌else◌,
}

pub record SafeQueue {ℓ} (A : Type ℓ) : Type ℓ where
  pub inner_queue : List A
  pub is_stop_flag : Bool
  pub limit_len_max : ℕ

module _ {ℓ} {A : Type ℓ} where
  unfoldable pub make : ℕ → SafeQueue A
  make limit = record { inner_queue = []; is_stop_flag = false; limit_len_max = limit }

  -- The predicates of the waits on `condition_push_` and `condition_pop_`.
  abbrev pub can_push : SafeQueue A → Bool
  can_push q = ltb (length q.inner_queue) q.limit_len_max || q.is_stop_flag

  abbrev pub can_pop : SafeQueue A → Bool
  can_pop q = ltb 0 (length q.inner_queue) || q.is_stop_flag

  abbrev push_back : A → SafeQueue A → SafeQueue A
  push_back v q = record q { inner_queue = q.inner_queue ++ v ∷ [] }

  unfoldable pub push_sync : A → SafeQueue A → Option (SafeQueue A)
  push_sync v q = if can_push q then some (if q.is_stop_flag then q else push_back v q) else none

  unfoldable pub try_push : A → SafeQueue A → ℤ × SafeQueue A
  try_push v q =
      if not (can_push q)
      then (neg 1, q)
      else if q.is_stop_flag
      then (neg 2, q)
      else (pos 0, push_back v q)

  unfoldable pub push_async : A → SafeQueue A → ℤ × SafeQueue A
  push_async v q =
      if q.is_stop_flag || leb q.limit_len_max (length q.inner_queue)
      then (neg 1, q)
      else (pos 0, push_back v q)

  -- `out_value = front(); pop_front();`, which each caller's guard keeps off the empty list.
  abbrev take_front : A → List A → A × List A
  take_front out [] = (out, [])
  take_front out (x ∷ xs) = (x, xs)

  abbrev pop_front : A → SafeQueue A → A × SafeQueue A
  pop_front out q =
      let (x, rest) = take_front out q.inner_queue in (x, record q { inner_queue = rest })

  -- The first argument is what the caller's variable holds before the call.
  unfoldable pub pop_sync : A → SafeQueue A → Option (A × SafeQueue A)
  pop_sync out q =
      if can_pop q then some (if q.is_stop_flag then (out, q) else pop_front out q) else none

  unfoldable pub try_pop : A → SafeQueue A → ℤ × A × SafeQueue A
  try_pop out q =
      if not (can_pop q)
      then (neg 1, out, q)
      else if q.is_stop_flag
      then (neg 2, out, q)
      else (let (x, q') = pop_front out q in (pos 0, x, q'))

  unfoldable pub pop_async : A → SafeQueue A → ℤ × A × SafeQueue A
  pop_async out q =
      if q.is_stop_flag || ltb (length q.inner_queue) 1
      then (neg 1, out, q)
      else (let (x, q') = pop_front out q in (pos 0, x, q'))

  abbrev move_list : SafeQueue A → SafeQueue A
  move_list q = record q { inner_queue = [] }

  unfoldable pub pop_sync_list : List A → SafeQueue A → Option (List A × SafeQueue A)
  pop_sync_list out q =
      if can_pop q
      then some (if q.is_stop_flag then (out, q) else (q.inner_queue, move_list q))
      else none

  unfoldable pub try_pop_list : List A → SafeQueue A → ℤ × List A × SafeQueue A
  try_pop_list out q =
      if not (can_pop q)
      then (neg 1, out, q)
      else if q.is_stop_flag
      then (neg 2, out, q)
      else (pos 0, q.inner_queue, move_list q)

  unfoldable pub pop_async_list : List A → SafeQueue A → ℤ × List A × SafeQueue A
  pop_async_list out q =
      if q.is_stop_flag || ltb (length q.inner_queue) 1
      then (neg 1, out, q)
      else (pos 0, q.inner_queue, move_list q)

  -- The loop of the three inserts: before the first item that the predicate accepts, else last.
  unfoldable pub insert_before : (A → Bool) → A → List A → List A
  insert_before predicate v [] = v ∷ []
  insert_before predicate v (x ∷ xs) =
      if predicate x then v ∷ x ∷ xs else x ∷ insert_before predicate v xs

  insert_item : (A → Bool) → A → SafeQueue A → SafeQueue A
  insert_item predicate v q = record q { inner_queue = insert_before predicate v q.inner_queue }

  unfoldable pub insert_sync : (A → Bool) → A → SafeQueue A → Option (SafeQueue A)
  unfolding insert_item
  insert_sync predicate v q =
      if can_push q then some (if q.is_stop_flag then q else insert_item predicate v q) else none

  unfoldable pub try_insert : (A → Bool) → A → SafeQueue A → ℤ × SafeQueue A
  unfolding insert_item
  try_insert predicate v q =
      if not (can_push q)
      then (neg 1, q)
      else if q.is_stop_flag
      then (neg 2, q)
      else (pos 0, insert_item predicate v q)

  unfoldable pub insert_async : (A → Bool) → A → SafeQueue A → ℤ × SafeQueue A
  unfolding insert_item
  insert_async predicate v q =
      if q.is_stop_flag || leb q.limit_len_max (length q.inner_queue)
      then (neg 1, q)
      else (pos 0, insert_item predicate v q)

  unfoldable pub get_size : SafeQueue A → ℕ
  get_size q = length q.inner_queue

  unfoldable pub empty : SafeQueue A → Bool
  empty q = elim q.inner_queue [ [] ↦ true | _ ∷ _ ↦ false ]

  unfoldable pub stop : SafeQueue A → SafeQueue A
  stop q = record q { is_stop_flag = true }

  unfoldable pub clear : SafeQueue A → ℤ × SafeQueue A
  clear q = (pos 0, record q { inner_queue = [] })

  -- The last line of `reset`, which takes no lock.
  unfoldable pub resume : SafeQueue A → SafeQueue A
  resume q = record q { is_stop_flag = false }

  -- `clear` always answers 0, so the early return is not taken.
  unfoldable pub reset : SafeQueue A → ℤ × SafeQueue A
  unfolding clear resume
  reset q = let (ret, q') = clear q in (ret, resume q')

  unfoldable pub change_limit_len_max : ℕ → SafeQueue A → SafeQueue A
  change_limit_len_max expect q = record q { limit_len_max = expect }
