-- ===== src/SafeQueue/Wakeups.antt =====
-- The threads that wait on the two condition variables of
-- src/target/o_pocket/context/threadpool/safe_queue.hpp: `condition_pop_` for an item,
-- `condition_push_` for room. A thread whose predicate fails goes to sleep; a woken one reads its
-- predicate again when it gets the mutex. A thread may also wake for no reason, or time out.
pub mod Pops
pub mod Pushes
use device_broker.Prelude.{
  ℕ, ◌+◌, ◌-◌, ◌<◌, ◌≡◌, Bool, true, false, none, some, List, ℤ, pos, neg, ltb, if◌then◌else◌, ◌⊎◌,
}
use device_broker.SafeQueue.{
  SafeQueue, make, push_sync, try_push, push_async, pop_sync, try_pop, pop_async, pop_sync_list,
  try_pop_list, pop_async_list, insert_sync, try_insert, insert_async, stop, clear, resume,
  change_limit_len_max,
}

-- One condition variable: how many threads are asleep on it, and how many have been woken and
-- have not read their predicate yet.
pub record Sleepers : Type 0 where
  pub asleep : ℕ
  pub woken : ℕ

unfoldable pub notify_one : Sleepers → Sleepers
notify_one s = if ltb 0 s.asleep then record { asleep = s.asleep - 1; woken = s.woken + 1 } else s

unfoldable pub notify_all : Sleepers → Sleepers
notify_all s = record { asleep = 0; woken = s.woken + s.asleep }

-- A thread whose predicate fails goes to sleep.
unfoldable pub wait : Sleepers → Sleepers
wait s = record s { asleep = s.asleep + 1 }

-- A thread reads its predicate: one that has just called the operation, or a woken one.
abbrev pub Comes : Sleepers → Sleepers → Type 0
Comes s r = (r ≡ s) ⊎ ((0 < s.woken) × (r ≡ record s { woken = s.woken - 1 }))

-- A sleeper wakes at a time-out, or for no reason.
abbrev pub WakesAlone : Sleepers → Sleepers → Type 0
WakesAlone s r = (0 < s.asleep) × (r ≡ record { asleep = s.asleep - 1; woken = s.woken + 1 })

-- The queue, with the threads that wait for an item and those that wait for room. A `stop` sets the
-- flag under the mutex and notifies after it: `flagged` counts the calls that have set it and notified
-- nobody yet, `half_notified` those that have notified `condition_push_` only.
pub record Waiting {ℓ} (A : Type ℓ) : Type ℓ where
  pub queue : SafeQueue A
  pub popping : Sleepers
  pub pushing : Sleepers
  pub flagged : ℕ
  pub half_notified : ℕ

module _ {ℓ} {A : Type ℓ} where
  -- One critical section. With `resizes` false there is no `clear`, no `reset` and no change of
  -- the limit, which make room without a word to `condition_push_`.
  pub data Step (resizes : Bool) (s t : Waiting A) : Type ℓ where
    -- a push or an insert that succeeds notifies one thread that waits for an item
    pushes_sync :
        (v : A) {r : Sleepers} {q : SafeQueue A}
        → Comes s.pushing r
        → s.queue.is_stop_flag ≡ false
        → push_sync v s.queue ≡ some q
        → t ≡ record s { queue = q; popping = notify_one s.popping; pushing = r }
        → Step resizes s t
    pushes_try :
        (v : A) {r : Sleepers} {q : SafeQueue A}
        → Comes s.pushing r
        → try_push v s.queue ≡ (pos 0, q)
        → t ≡ record s { queue = q; popping = notify_one s.popping; pushing = r }
        → Step resizes s t
    pushes_async :
        (v : A) {q : SafeQueue A}
        → push_async v s.queue ≡ (pos 0, q)
        → t ≡ record s { queue = q; popping = notify_one s.popping }
        → Step resizes s t
    inserts_sync :
        (p : A → Bool) (v : A) {r : Sleepers} {q : SafeQueue A}
        → Comes s.pushing r
        → s.queue.is_stop_flag ≡ false
        → insert_sync p v s.queue ≡ some q
        → t ≡ record s { queue = q; popping = notify_one s.popping; pushing = r }
        → Step resizes s t
    inserts_try :
        (p : A → Bool) (v : A) {r : Sleepers} {q : SafeQueue A}
        → Comes s.pushing r
        → try_insert p v s.queue ≡ (pos 0, q)
        → t ≡ record s { queue = q; popping = notify_one s.popping; pushing = r }
        → Step resizes s t
    inserts_async :
        (p : A → Bool) (v : A) {q : SafeQueue A}
        → insert_async p v s.queue ≡ (pos 0, q)
        → t ≡ record s { queue = q; popping = notify_one s.popping }
        → Step resizes s t
    -- no room: to sleep; a time-out or a stop: away
    push_sleeps :
        (v : A) {r : Sleepers}
        → Comes s.pushing r
        → push_sync v s.queue ≡ none
        → t ≡ record s { pushing = wait r }
        → Step resizes s t
    push_times_out :
        (v : A) {r : Sleepers}
        → Comes s.pushing r
        → try_push v s.queue ≡ (neg 1, s.queue)
        → t ≡ record s { pushing = r }
        → Step resizes s t
    push_let_go :
        (v : A) {r : Sleepers}
        → Comes s.pushing r
        → try_push v s.queue ≡ (neg 2, s.queue)
        → t ≡ record s { pushing = r }
        → Step resizes s t
    push_wakes :
        {r : Sleepers} → WakesAlone s.pushing r → t ≡ record s { pushing = r } → Step resizes s t
    -- a pop that succeeds notifies one thread that waits for room, the pop of a list all of them
    takes_sync :
        (out : A) {x : A} {r : Sleepers} {q : SafeQueue A}
        → Comes s.popping r
        → s.queue.is_stop_flag ≡ false
        → pop_sync out s.queue ≡ some (x, q)
        → t ≡ record s { queue = q; popping = r; pushing = notify_one s.pushing }
        → Step resizes s t
    takes_try :
        (out : A) {x : A} {r : Sleepers} {q : SafeQueue A}
        → Comes s.popping r
        → try_pop out s.queue ≡ (pos 0, x, q)
        → t ≡ record s { queue = q; popping = r; pushing = notify_one s.pushing }
        → Step resizes s t
    takes_async :
        (out : A) {x : A} {q : SafeQueue A}
        → pop_async out s.queue ≡ (pos 0, x, q)
        → t ≡ record s { queue = q; pushing = notify_one s.pushing }
        → Step resizes s t
    takes_all_sync :
        (out : List A) {xs : List A} {r : Sleepers} {q : SafeQueue A}
        → Comes s.popping r
        → s.queue.is_stop_flag ≡ false
        → pop_sync_list out s.queue ≡ some (xs, q)
        → t ≡ record s { queue = q; popping = r; pushing = notify_all s.pushing }
        → Step resizes s t
    takes_all_try :
        (out : List A) {xs : List A} {r : Sleepers} {q : SafeQueue A}
        → Comes s.popping r
        → try_pop_list out s.queue ≡ (pos 0, xs, q)
        → t ≡ record s { queue = q; popping = r; pushing = notify_all s.pushing }
        → Step resizes s t
    takes_all_async :
        (out : List A) {xs : List A} {q : SafeQueue A}
        → pop_async_list out s.queue ≡ (pos 0, xs, q)
        → t ≡ record s { queue = q; pushing = notify_all s.pushing }
        → Step resizes s t
    pop_sleeps :
        (out : A) {r : Sleepers}
        → Comes s.popping r
        → pop_sync out s.queue ≡ none
        → t ≡ record s { popping = wait r }
        → Step resizes s t
    pop_times_out :
        (out : A) {r : Sleepers}
        → Comes s.popping r
        → try_pop out s.queue ≡ (neg 1, out, s.queue)
        → t ≡ record s { popping = r }
        → Step resizes s t
    pop_let_go :
        (out : A) {r : Sleepers}
        → Comes s.popping r
        → try_pop out s.queue ≡ (neg 2, out, s.queue)
        → t ≡ record s { popping = r }
        → Step resizes s t
    pop_wakes :
        {r : Sleepers} → WakesAlone s.popping r → t ≡ record s { popping = r } → Step resizes s t
    stops : t ≡ record s { queue = stop s.queue; flagged = s.flagged + 1 } → Step resizes s t
    notifies_push :
        0 < s.flagged
        → t ≡ record s {
          pushing = notify_all s.pushing;
          flagged = s.flagged - 1;
          half_notified = s.half_notified + 1;
        }
        → Step resizes s t
    notifies_pop :
        0 < s.half_notified
        → t ≡ record s { popping = notify_all s.popping; half_notified = s.half_notified - 1 }
        → Step resizes s t
    -- `reset` is a `clear` and then this
    clears : resizes ≡ true → t ≡ record s { queue = (clear s.queue).1 } → Step resizes s t
    resumes : resizes ≡ true → t ≡ record s { queue = resume s.queue } → Step resizes s t
    limit_changes :
        (expect : ℕ)
        → resizes ≡ true
        → t ≡ record s { queue = change_limit_len_max expect s.queue }
        → Step resizes s t

  pub data Reach (resizes : Bool) (s : Waiting A) : Waiting A → Type ℓ where
    here : Reach resizes s s
    next : {t u : Waiting A} → Reach resizes s t → Step resizes t u → Reach resizes s u

  abbrev pub nobody : ℕ → Waiting A
  nobody limit = record {
    queue = make limit;
    popping = record { asleep = 0; woken = 0 };
    pushing = record { asleep = 0; woken = 0 };
    flagged = 0;
    half_notified = 0;
  }
