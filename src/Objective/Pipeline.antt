-- ===== src/Objective/Pipeline.antt =====
-- The download pool and the run pool at work on the messages of a task, with one worker each, in
-- any interleaving (src/target/o_pocket/context/logic/objecitve/logic_impl_http_service_objective.cpp).
-- A worker takes a task, calls it, and what the entity hands on it enqueues itself, waiting while
-- the queue is full. The upload entity goes to the run pool's queue too. One call of an entity is
-- one step; its unlocked counters are taken as atomic.
pub mod Conserved
pub mod Deadlock
mod Tests
use device_broker.Prelude.{ℕ, ◌≡◌, String, Option, none, some, List, [], ◌∷◌, ◌++◌, ℤ, pos}
use device_broker.Requests.{RabbitmqMsgTaskInfo}
use device_broker.Threadpool.{Threadpool, enqueue_task_sync, work_each_entity, start_workers}
use device_broker.Threadpool
use device_broker.TaskStatus.{initial}
use device_broker.Objective.Accounting.{message}
use device_broker.Objective.{Entity, download, Manager, call_entity}

-- What a worker is at: the call of an entity, or waiting to enqueue the one that it handed on.
pub data Hand : Type 0 where
  calls : Entity → Hand
  hands : Entity → Hand

-- `accepted` are the messages that the poll has enqueued, `ended` those whose last call is over.
pub record Pipeline : Type 0 where
  pub down : Threadpool Entity
  pub run : Threadpool Entity
  pub down_hand : Option Hand
  pub run_hand : Option Hand
  pub manager : Manager
  pub accepted : List RabbitmqMsgTaskInfo
  pub ended : List RabbitmqMsgTaskInfo

abbrev pub handed : Option Entity → Option Hand
handed none = none
handed (some e) = some (hands e)

-- The message that ends with the call of an entity, by what the entity hands on.
abbrev pub ended_by : Entity → Option Entity → List RabbitmqMsgTaskInfo
ended_by e none = message e ∷ []
ended_by e (some later) = []

pub data Step (s t : Pipeline) : Type 0 where
  posts :
      (info : RabbitmqMsgTaskInfo) (tag : String) {p : Threadpool Entity}
      → enqueue_task_sync (download info) (pos 1) tag s.down ≡ some p
      → t ≡ record s { down = p; accepted = s.accepted ++ info ∷ [] }
      → Step s t
  down_takes :
      {e : Entity} {p : Threadpool Entity}
      → s.down_hand ≡ none
      → work_each_entity s.down ≡ some (some e, p)
      → t ≡ record s { down = p; down_hand = some (calls e) }
      → Step s t
  down_calls :
      (answers : ℕ → ℤ) {e : Entity}
      → s.down_hand ≡ some (calls e)
      → t ≡ record s {
        manager = (call_entity answers e s.manager).manager;
        down_hand = handed (call_entity answers e s.manager).follow;
        ended = s.ended ++ ended_by e (call_entity answers e s.manager).follow;
      }
      → Step s t
  down_hands_on :
      (tag : String) {e : Entity} {p : Threadpool Entity}
      → s.down_hand ≡ some (hands e)
      → enqueue_task_sync e (pos 0) tag s.run ≡ some p
      → t ≡ record s { run = p; down_hand = none }
      → Step s t
  run_takes :
      {e : Entity} {p : Threadpool Entity}
      → s.run_hand ≡ none
      → work_each_entity s.run ≡ some (some e, p)
      → t ≡ record s { run = p; run_hand = some (calls e) }
      → Step s t
  run_calls :
      (answers : ℕ → ℤ) {e : Entity}
      → s.run_hand ≡ some (calls e)
      → t ≡ record s {
        manager = (call_entity answers e s.manager).manager;
        run_hand = handed (call_entity answers e s.manager).follow;
        ended = s.ended ++ ended_by e (call_entity answers e s.manager).follow;
      }
      → Step s t
  run_hands_on :
      (tag : String) {e : Entity} {p : Threadpool Entity}
      → s.run_hand ≡ some (hands e)
      → enqueue_task_sync e (pos 0) tag s.run ≡ some p
      → t ≡ record s { run = p; run_hand = none }
      → Step s t

pub data Reach (s : Pipeline) : Pipeline → Type 0 where
  here : Reach s s
  next : {t u : Pipeline} → Reach s t → Step t u → Reach s u

-- The pools as the first load makes them, and the manager as it is constructed.
abbrev pub started : ℕ → Pipeline
started now = record {
  down = start_workers now (Threadpool.make (pos 1) 3 none none);
  run = start_workers now (Threadpool.make (pos 1) 2 none none);
  down_hand = none;
  run_hand = none;
  manager = record {
    num_init = 0;
    g_task_end = 0;
    updated_cnt = 0;
    status = initial;
    sent = [];
    cleaned = 0;
  };
  accepted = [];
  ended = [];
}
