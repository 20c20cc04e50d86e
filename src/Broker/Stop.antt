-- ===== src/Broker/Stop.antt =====
-- What ends the service thread.
use device_broker.Prelude.{◌≡◌, refl, Bool, true, false, arith}
use device_broker.TaskSuit.{sigint, signal_come, post_task, empty_slot, wait_task}
use device_broker.HttpService.{Job}
use device_broker.Broker.System.{
  Thread, waits, has_tested, sleeps, calls, ended, notify_all, Threads, Step, comes, posts,
  is_refused, writes, writes_refusal, empties, returned, takes, returns, leaves, tests,
  falls_asleep, told_to_stop, Reach, here, next, started,
}

record Inv (s : Threads) : Type 0 where
  not_told : s.suit.to_stop ≡ false
  by_signal : s.thread ≡ ended → sigint s.signals ≡ true

notify_all-ended : (thread : Thread) → notify_all thread ≡ ended → thread ≡ ended
unfolding notify_all
notify_all-ended waits e = e
notify_all-ended has_tested e = e
notify_all-ended sleeps e = absurd (ground (arith, e))
notify_all-ended (calls job) e = e
notify_all-ended returned e = e
notify_all-ended ended e = e

started-Inv : Inv started
started-Inv = record { not_told = refl; by_signal = λ e. absurd (ground (arith, e)) }

module _ {jobs : Job → Bool} where
  Step-Inv : {s t : Threads} → Step jobs s t → Inv s → Inv t
  unfolding signal_come post_task empty_slot wait_task
  Step-Inv (comes signal e) v = ground (arith, v)
  Step-Inv {s} (posts type job asked ready e f) v = ground (arith, v, notify_all-ended s.thread)
  Step-Inv (is_refused type job asked ready e f) v = ground (arith, v)
  Step-Inv (writes job h e) v = ground (arith, v)
  Step-Inv (takes job w e slot f) v = ground (arith, v)
  Step-Inv (returns job c l e) v = ground (arith, v)
  Step-Inv (writes_refusal job h e) v = ground (arith, v)
  Step-Inv (empties w f) v = ground (arith, v)
  Step-Inv (leaves w e f) v = ground (arith, v)
  Step-Inv (tests w e f) v = ground (arith, v)
  Step-Inv (falls_asleep w e) v = ground (arith, v)
  Step-Inv {s} (told_to_stop e) v = ground (arith, v, notify_all-ended s.thread)

  Reach-Inv : {s t : Threads} → Inv s → Reach jobs s t → Inv t
  Reach-Inv v here = v
  Reach-Inv v (next r st) = Step-Inv st (Reach-Inv v r)

  -- However requests, signals and calls of to_stop_singal interleave, the service thread ends only after a
  -- SIGINT: to_stop_singal does not set the flag that the wait reads.
  pub ended-sigint :
      {s : Threads} → Reach jobs started s → s.thread ≡ ended → sigint s.signals ≡ true
  ended-sigint r e = (Reach-Inv started-Inv r).by_signal e
