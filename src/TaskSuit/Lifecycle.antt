-- ===== src/TaskSuit/Lifecycle.antt =====
-- The service thread and the one thread that posts tasks, that of the server, in any interleaving
-- (src/target/o_pocket/context/task_suit/task_suit.cpp, threadloop/threadloop_objective.cpp).
use mathlib.Core.List.{append-nil}
use device_broker.Prelude.{
  ◌≡◌, refl, ◌⊎◌, inl, true, false, Option, none, some, List, [], ◌∷◌, ◌++◌, neg, arith,
}
use device_broker.TaskSuit.{
  SignalHandle, StateEnum, TaskSuitBase, post_task, wait_task, task_none, is_empty, fill,
  empty_slot,
}

-- The slot, what a post has found it empty for, the entity that the service thread is calling, and two
-- histories: what was accepted and what has left the slot.
pub record Service {ℓ} (T : Type ℓ) : Type ℓ where
  pub suit : TaskSuitBase T
  pub posting : Option (StateEnum × T)
  pub running : Option T
  pub accepted : List T
  pub finished : List T

module _ {ℓ} {T : Type ℓ} where
  pub data Step (s t : Service T) : Type ℓ where
    -- the test of `post_task`, which takes no lock
    tests :
        (type : StateEnum) (entity : T)
        → s.posting ≡ none
        → is_empty s.suit ≡ true
        → t ≡ record s { posting = some (type, entity) }
        → Step s t
    -- and its writes
    fills :
        (type : StateEnum) (entity : T)
        → s.posting ≡ some (type, entity)
        → t ≡ record s {
          suit = fill type entity s.suit;
          posting = none;
          accepted = s.accepted ++ entity ∷ [];
        }
        → Step s t
    is_refused :
        (type : StateEnum) (entity : T) {suit : TaskSuitBase T}
        → s.posting ≡ none
        → post_task type entity s.suit ≡ (neg 1, suit)
        → t ≡ record s { suit = suit }
        → Step s t
    -- `task_filter` up to the call of the entity
    begins :
        (h : SignalHandle) (entity : T)
        → s.running ≡ none
        → wait_task h s.suit ≡ some false
        → s.suit.task_entity ≡ some entity
        → t ≡ record s { running = some entity }
        → Step s t
    -- and from its return
    ends :
        (entity : T)
        → s.running ≡ some entity
        → t ≡ record s {
          suit = empty_slot s.suit;
          running = none;
          finished = s.finished ++ entity ∷ [];
        }
        → Step s t

  pub data Reach (s : Service T) : Service T → Type ℓ where
    here : Reach s s
    next : {t u : Service T} → Reach s t → Step t u → Reach s u

  abbrev pub pending : Option T → List T
  pending none = []
  pending (some entity) = entity ∷ []

  record Inv (s : Service T) : Type ℓ where
    in_slot : (s.running ≡ none) ⊎ (s.running ≡ s.suit.task_entity)
    free_for : (s.posting ≡ none) ⊎ ((s.suit.task_entity ≡ none) × (s.running ≡ none))
    in_order : s.accepted ≡ s.finished ++ pending s.suit.task_entity

  step-Inv : {s t : Service T} → Step s t → Inv s → Inv t
  unfolding post_task wait_task fill empty_slot
  step-Inv (tests type entity e g f) v = ground (arith, e, g, f, v)
  step-Inv {s} (fills type entity e f) v = ground (arith, append-nil s.finished, e, f, v)
  step-Inv (is_refused type entity g e f) v = ground (arith, g, e, f, v)
  step-Inv (begins h entity idle e slot f) v = ground arith
  step-Inv {s} (ends entity e f) v = ground (arith, append-nil (s.finished ++ entity ∷ []))

  Reach-Inv : {s t : Service T} → Inv s → Reach s t → Inv t
  Reach-Inv v here = v
  Reach-Inv v (next r st) = step-Inv st (Reach-Inv v r)

  abbrev pub started : Service T
  started = record {
    suit = record { to_stop = false; task_entity = none; task_type = task_none };
    posting = none;
    running = none;
    accepted = [];
    finished = [];
  }

  started-Inv : Inv started
  started-Inv = record { in_slot = inl refl; free_for = inl refl; in_order = refl }

  -- However one posting thread, which tests the slot and fills it in two steps, and the service thread
  -- interleave, every accepted task leaves the slot once and in the order of acceptance, and at most
  -- one is outstanding.
  pub accepted_in_order :
      {s : Service T} → Reach started s → s.accepted ≡ s.finished ++ pending s.suit.task_entity
  accepted_in_order r = (Reach-Inv started-Inv r).in_order

  -- While an entity is being called, every post is refused and changes nothing.
  pub post_refused_while_running :
      {s : Service T} (type : StateEnum) (entity running : T)
      → Reach started s
      → s.running ≡ some running
      → post_task type entity s.suit ≡ (neg 1, s.suit)
  unfolding post_task
  post_refused_while_running type entity running r e = ground (arith, Reach-Inv started-Inv r)
