-- ===== src/Broker/Stale.antt =====
-- What the states that the service reports say once its work is done.
use Prim.Native.Nat.{bit_or}
use device_broker.Prelude.{◌≡◌, refl, Bool, true, false, none, arith}
use device_broker.Requests.{TaskFileOperationFilePull}
use device_broker.TaskStatus.{TaskStatus, busy, running, file_pull}
use device_broker.TaskSuit.{TaskReturn, post_task, wait_task, empty_slot, task_file_opt_file_pull}
use device_broker.HttpService.{Job, pull_job}
use device_broker.Broker.System.{
  Thread, waits, has_tested, sleeps, calls, returned, ended, notify_all, Threads, idle,
  accepted_status, pulled, Step, comes, posts, is_refused, writes, writes_refusal, takes, returns,
  empties, leaves, tests, falls_asleep, told_to_stop, Reach, here, next, started,
}

-- Neither the handler nor the service thread has anything left to do.
abbrev is_working : Thread → Bool
is_working (calls job) = true
is_working returned = true
is_working thread = false

record IsDone (status : TaskStatus) (s : Threads) : Type 0 where
  slot : s.suit.task_entity ≡ none
  handled : s.handler ≡ idle
  at_rest : is_working s.thread ≡ false
  kept : s.status ≡ status

notify_all-rests : (thread : Thread) → is_working (notify_all thread) ≡ is_working thread
unfolding notify_all
notify_all-rests waits = refl
notify_all-rests has_tested = refl
notify_all-rests sleeps = refl
notify_all-rests (calls job) = refl
notify_all-rests returned = refl
notify_all-rests ended = refl

abbrev pub no_request : Job → Bool
no_request job = false

step-IsDone :
    {status : TaskStatus} {s t : Threads} → Step no_request s t → IsDone status s → IsDone status t
unfolding wait_task
step-IsDone (comes signal e) v = ground (arith, e, v)
step-IsDone (posts type job asked ready e f) v = absurd (ground (arith, asked))
step-IsDone (is_refused type job asked ready e f) v = absurd (ground (arith, asked))
step-IsDone (writes job h e) v = absurd (ground (arith, h, v.handled))
step-IsDone (writes_refusal job h e) v = absurd (ground (arith, h, v.handled))
step-IsDone (takes job w e slot f) v = absurd (ground (arith, slot, v.slot))
step-IsDone (returns job c l e) v = absurd (ground (arith, c, v.at_rest))
step-IsDone (empties w f) v = absurd (ground (arith, w, v.at_rest))
step-IsDone (leaves w e f) v = ground (arith, f, v)
step-IsDone (tests w e f) v = ground (arith, f, v)
step-IsDone (falls_asleep w f) v = ground (arith, f, v)
step-IsDone {s = s} (told_to_stop f) v = ground (arith, f, v, notify_all-rests s.thread)

Reach-IsDone :
    {status : TaskStatus} {s t : Threads} → Reach no_request s t → IsDone status s → IsDone status t
Reach-IsDone here v = v
Reach-IsDone (next r st) v = step-IsDone st (Reach-IsDone r v)

-- A pull that ends before its handler has written the states leaves the service with a free slot, and
-- with no handler or task at work, reporting a pull that runs; and whatever happens after that, as
-- long as no request comes, the slot stays free and that is what it goes on reporting.
pub stale_status :
    (info : TaskFileOperationFilePull) (ret : TaskReturn)
    → (s : Threads) × Reach (λ job. true) started s
      × (s.suit.task_entity ≡ none)
      × (s.handler ≡ idle)
      × (s.thread ≡ waits)
      × (s.status.task_state ≡ running)
      × (s.status.device_state ≡ bit_or busy file_pull)
      × ((t : Threads) → Reach no_request s t → (t.status ≡ s.status) × (t.suit.task_entity ≡ none))
unfolding post_task wait_task accepted_status notify_all empty_slot
stale_status info ret =
    let posted : Step (λ job. true) started _ =
      posts task_file_opt_file_pull (pull_job info) refl refl refl refl in
    let taken : Step (λ job. true) _ _ = takes (pull_job info) refl refl refl refl in
    let back : Step (λ job. true) _ _ = returns (pull_job info) refl (pulled ret) refl in
    let emptied : Step (λ job. true) _ _ = empties refl refl in
    let written : Step (λ job. true) _ _ = writes (pull_job info) refl refl in
    (
      _,
      next (next (next (next (next here posted) taken) back) emptied) written,
      refl,
      refl,
      refl,
      refl,
      refl,
      λ t r.
          (let v =
              Reach-IsDone r
                (record { slot = refl; handled = refl; at_rest = refl; kept = refl }) in
            (v.kept, v.slot)),
    )
