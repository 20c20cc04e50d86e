-- ===== src/Messages.antt =====
-- src/target/o_pocket/io/message_manager.h: the queue between the connection's thread and the
-- poll, with its own semaphore. An operation is one critical section, read when its wait ends
-- (`none`: it waits). `Add` is cut where it waits: after it has received, and after it has a
-- permit. What the connection answers is an argument; `getTime`, which nothing calls, is left out.
-- A permit count stays within the queue's length, so `int` does not overflow in a run.
pub mod Bounded
mod Tests
use device_broker.Prelude.{
  ℕ, zero, suc, String, Bool, true, false, not, ◌||◌, ◌&&◌, Option, none, some, List, [], ◌∷◌, ◌++◌,
  ℤ, pos, neg, ◌+ℤ◌, ◌-ℤ◌, eq_ℤ, ltb_ℤ, nonzero, length, if◌then◌else◌,
}

-- class Semaphore_: the permit count is all its state.
unfoldable pub acquire : ℤ → Option ℤ
unfolding ◌-ℤ◌
acquire permits = if eq_ℤ permits (pos 0) then none else some (permits -ℤ pos 1)

unfoldable pub try_acquire : ℤ → Bool × ℤ
unfolding ◌-ℤ◌
try_acquire permits = if ltb_ℤ (pos 0) permits then (true, permits -ℤ pos 1) else (false, permits)

-- `permits` is what is there when the wait ends, by a notification or by the time-out.
unfoldable pub try_acquire_for : ℤ → Bool × ℤ
unfolding ◌-ℤ◌
try_acquire_for permits =
    if eq_ℤ permits (pos 0) then (false, permits) else (true, permits -ℤ pos 1)

unfoldable pub release : ℤ → ℤ
unfolding ◌+ℤ◌
release permits = permits +ℤ pos 1

unfoldable pub available_permits : ℤ → ℤ
available_permits permits = permits

-- Where the receiving thread is: between two calls of `Add`, with a message but no permit, with
-- both, or out of its loop.
pub data Adder : Type 0 where
  idle ended : Adder
  received admitted : String → Adder

pub record MessageManage : Type 0 where
  pub sem : ℤ
  pub queue : List String
  pub stop : Bool
  pub state : Bool
  pub adder : Adder

unfoldable pub make : ℕ → MessageManage
make length_queue_max = record {
  sem = pos length_queue_max;
  queue = [];
  stop = false;
  state = false;
  adder = idle;
}

-- RunThread's check and `Add` up to `sem_.acquire()`; `ret` and `task` are what `receiveMessage`
-- gives, when it is called.
receive : ℤ → String → MessageManage → MessageManage
receive ret task m = record m {
  stop = m.stop || eq_ℤ ret (neg 2);
  adder = if nonzero ret then idle else received task;
}

unfoldable pub add_receive : ℤ → String → MessageManage → MessageManage
unfolding receive
add_receive ret task m =
    if m.stop then record m { adder = ended } else if m.state then receive ret task m else m

unfoldable pub add_acquire : String → MessageManage → Option MessageManage
unfolding acquire
add_acquire task m = elim (acquire m.sem) [
  | none ↦ none
  | some permits ↦ some (record m { sem = permits; adder = admitted task })
]

unfoldable pub add_push : String → MessageManage → MessageManage
add_push task m = record m { queue = m.queue ++ task ∷ []; adder = idle }

-- The first argument is what the caller's string holds.
take_front : String → List String → MessageManage → ℤ × String × MessageManage
unfolding release
take_front task [] m = (neg 1, task, m)
take_front task (x ∷ xs) m = (pos 0, x, record m { queue = xs; sem = release m.sem })

unfoldable pub get : String → Bool → MessageManage → Option (ℤ × String × MessageManage)
unfolding take_front
get task is_wait m = elim m.queue [
  | [] ↦ if is_wait then none else some (neg 1, task, m)
  | x ∷ xs ↦ some (take_front task (x ∷ xs) m)
]

-- `Del`: `none` where the queue is empty, on which `front` has no defined result.
unfoldable pub del : MessageManage → Option (String × MessageManage)
unfolding release
del m = elim m.queue [ [] ↦ none | x ∷ xs ↦ some (x, record m { queue = xs; sem = release m.sem }) ]

-- `Put` answers what `sendMessage` answers.
unfoldable pub put : (String → ℤ) → String → ℤ
put send_message res = send_message res

unfoldable pub enable : MessageManage → MessageManage
enable m = record m { state = true }

unfoldable pub disable : MessageManage → MessageManage
disable m = record m { state = false }

unfoldable pub to_stop : MessageManage → MessageManage
to_stop m = record m { stop = true }

unfoldable pub queuelen : MessageManage → ℕ
queuelen m = length m.queue

-- The loop of the destructor: the messages that are lost. `none`: not finished within the fuel.
unfoldable pub drain : ℕ → MessageManage → Option (List String × MessageManage)
unfolding get
drain zero m = none
drain (suc fuel) m = elim (get "" false m) [
  | none ↦ none
  | some (ret, msg, m') ↦
      (let rest = drain fuel m' in
        if nonzero ret
        then some ([], m')
        else (elim rest [ none ↦ none | some (msgs, end) ↦ some (msg ∷ msgs, end) ]))
]

-- The destructor up to the join of the receiving thread.
unfoldable pub destroy : ℕ → MessageManage → Option (List String × MessageManage)
unfolding drain to_stop disable
destroy fuel m = drain fuel (disable (to_stop m))
