-- ===== src/SafeQueue/Wakeups/Pushes.antt =====
-- The threads that wait for room: `condition_push_` of
-- src/target/o_pocket/context/threadpool/safe_queue.hpp.
use device_broker.Prelude.{
  ℕ, ◌+◌, ◌≤◌, ◌<◌, ◌≡◌, refl, true, false, [], ◌∷◌, length, length-append, ◌⊎◌, inl, inr, arith,
}
use device_broker.SafeQueue.{
  make, push_sync, try_push, push_async, pop_sync, try_pop, pop_async, pop_sync_list, try_pop_list,
  pop_async_list, insert_sync, try_insert, insert_async, insert_item, stop, clear, resume,
  change_limit_len_max,
}
use device_broker.SafeQueue.Capacity.{length-insert_before}
use device_broker.SafeQueue.Wakeups.{
  notify_one, notify_all, wait, Waiting, Step, pushes_sync, pushes_try, pushes_async, inserts_sync,
  inserts_try, inserts_async, push_sleeps, push_times_out, push_let_go, push_wakes, takes_sync,
  takes_try, takes_async, takes_all_sync, takes_all_try, takes_all_async, pop_sleeps, pop_times_out,
  pop_let_go, pop_wakes, stops, notifies_push, notifies_pop, clears, resumes, limit_changes, Reach,
  here, next, nobody,
}

module _ {ℓ} {A : Type ℓ} where
  -- While a stop that has not notified yet is under way nothing is said.
  record Roomy (s : Waiting A) : Type 0 where
    enough :
        (0 < s.flagged)
        ⊎ ((s.pushing.asleep ≡ 0)
            ⊎ (s.queue.limit_len_max ≤ length s.queue.inner_queue + s.pushing.woken))
    stopped : (0 < s.flagged) ⊎ ((s.queue.is_stop_flag ≡ false) ⊎ (s.pushing.asleep ≡ 0))

  step-Roomy : {s t : Waiting A} → Step false s t → Roomy s → Roomy t
  unfolding notify_one notify_all wait push_sync try_push push_async insert_sync try_insert
      insert_async insert_item pop_sync try_pop pop_async pop_sync_list try_pop_list pop_async_list
      stop clear resume change_limit_len_max
  step-Roomy {s} (pushes_sync v a b c e) w =
      ground (arith, length-append s.queue.inner_queue (v ∷ []))
  step-Roomy {s} (pushes_try v a b e) w = ground (arith, length-append s.queue.inner_queue (v ∷ []))
  step-Roomy {s} (pushes_async v b e) w = ground (arith, length-append s.queue.inner_queue (v ∷ []))
  step-Roomy {s} (inserts_sync p v a b c e) w =
      ground (arith, length-insert_before p v s.queue.inner_queue)
  step-Roomy {s} (inserts_try p v a b e) w =
      ground (arith, length-insert_before p v s.queue.inner_queue)
  step-Roomy {s} (inserts_async p v b e) w =
      ground (arith, length-insert_before p v s.queue.inner_queue)
  step-Roomy (push_sleeps v a b e) w = ground arith
  step-Roomy (push_times_out v a b e) w = ground arith
  step-Roomy (push_let_go v a b e) w = ground arith
  step-Roomy (push_wakes a e) w = ground arith
  step-Roomy (takes_sync out a b c e) w = ground arith
  step-Roomy (takes_try out a b e) w = ground arith
  step-Roomy (takes_async out b e) w = ground arith
  step-Roomy (takes_all_sync out a b c e) w = ground arith
  step-Roomy (takes_all_try out a b e) w = ground arith
  step-Roomy (takes_all_async out b e) w = ground arith
  step-Roomy (pop_sleeps out a b e) w = ground arith
  step-Roomy (pop_times_out out a b e) w = ground arith
  step-Roomy (pop_let_go out a b e) w = ground arith
  step-Roomy (pop_wakes a e) w = ground arith
  step-Roomy (stops e) w = ground arith
  step-Roomy (notifies_push b e) w = ground arith
  step-Roomy (notifies_pop b e) w = ground arith
  step-Roomy (clears b e) w = ground arith
  step-Roomy (resumes b e) w = ground arith
  step-Roomy (limit_changes n b e) w = ground arith

  Reach-Roomy : {s t : Waiting A} → Roomy s → Reach false s t → Roomy t
  Reach-Roomy w here = w
  Reach-Roomy w (next r st) = step-Roomy st (Reach-Roomy w r)

  -- No wake-up for room is lost as long as nobody clears or resets the queue or changes its limit:
  -- however the pushes, inserts, pops, time-outs and stops interleave, a stop with its flag and its two
  -- notifications in steps of their own, while no stop has still to notify `condition_push_` and some
  -- thread is asleep on it, the items queued and the woken threads on their way fill the limit.
  pub no_lost_room :
      (limit : ℕ) {s : Waiting A}
      → Reach false (nobody limit) s
      → s.flagged ≡ 0
      → 0 < s.pushing.asleep
      → s.queue.limit_len_max ≤ length s.queue.inner_queue + s.pushing.woken
  unfolding make
  no_lost_room limit r n h =
      let w = Reach-Roomy (record { enough = inr (inl refl); stopped = inr (inl refl) }) r in
      ground (arith, w.enough)

  -- A clear while threads wait for room wakes none of them: with a limit above 0 the queue has all
  -- its room, and every one of them is still asleep.
  pub clear_wakes_nobody :
      (s : Waiting A)
      → 0 < s.queue.limit_len_max
      → 0 < s.pushing.asleep
      → s.pushing.woken ≡ 0
      → (t : Waiting A) × Step true s t
        × (length t.queue.inner_queue < t.queue.limit_len_max)
        × (t.pushing ≡ s.pushing)
  unfolding clear
  clear_wakes_nobody s h a w = (record s { queue = (clear s.queue).1 }, clears refl refl, h, refl)
