-- ===== src/SafeQueue/Wakeups/Pops.antt =====
-- The threads that wait for an item: `condition_pop_` of
-- src/target/o_pocket/context/threadpool/safe_queue.hpp.
use device_broker.Prelude.{
  ℕ, ◌+◌, ◌≤◌, ◌<◌, ◌≡◌, refl, Bool, false, [], ◌∷◌, length, length-append, ◌⊎◌, inl, inr, arith,
}
use device_broker.SafeQueue.{
  make, push_sync, try_push, push_async, pop_sync, try_pop, pop_async, pop_sync_list, try_pop_list,
  pop_async_list, insert_sync, try_insert, insert_async, insert_item, stop, clear, resume,
  change_limit_len_max,
}
use device_broker.SafeQueue.Capacity.{length-insert_before}
use device_broker.SafeQueue.Wakeups.{
  notify_one, notify_all, wait, Waiting, Step, pushes_sync, pushes_try, pushes_async, inserts_sync,
  inserts_try, inserts_async, push_sleeps, push_times_out, push_let_go, push_wakes, takes_sync,
  takes_try, takes_async, takes_all_sync, takes_all_try, takes_all_async, pop_sleeps, pop_times_out,
  pop_let_go, pop_wakes, stops, notifies_push, notifies_pop, clears, resumes, limit_changes, Reach,
  here, next, nobody,
}

module _ {ℓ} {A : Type ℓ} where
  -- While a stop is under way nothing is said.
  record Awake (s : Waiting A) : Type 0 where
    enough :
        (0 < s.flagged + s.half_notified)
        ⊎ ((s.popping.asleep ≡ 0) ⊎ (length s.queue.inner_queue ≤ s.popping.woken))
    stopped :
        (0 < s.flagged + s.half_notified)
        ⊎ ((s.queue.is_stop_flag ≡ false) ⊎ (s.popping.asleep ≡ 0))

  step-Awake : {resizes : Bool} {s t : Waiting A} → Step resizes s t → Awake s → Awake t
  unfolding notify_one notify_all wait push_sync try_push push_async insert_sync try_insert
      insert_async insert_item pop_sync try_pop pop_async pop_sync_list try_pop_list pop_async_list
      stop clear resume change_limit_len_max
  step-Awake {s = s} (pushes_sync v a b c e) w =
      ground (arith, length-append s.queue.inner_queue (v ∷ []))
  step-Awake {s = s} (pushes_try v a b e) w =
      ground (arith, length-append s.queue.inner_queue (v ∷ []))
  step-Awake {s = s} (pushes_async v b e) w =
      ground (arith, length-append s.queue.inner_queue (v ∷ []))
  step-Awake {s = s} (inserts_sync p v a b c e) w =
      ground (arith, length-insert_before p v s.queue.inner_queue)
  step-Awake {s = s} (inserts_try p v a b e) w =
      ground (arith, length-insert_before p v s.queue.inner_queue)
  step-Awake {s = s} (inserts_async p v b e) w =
      ground (arith, length-insert_before p v s.queue.inner_queue)
  step-Awake (push_sleeps v a b e) w = ground arith
  step-Awake (push_times_out v a b e) w = ground arith
  step-Awake (push_let_go v a b e) w = ground arith
  step-Awake (push_wakes a e) w = ground arith
  step-Awake (takes_sync out a b c e) w = ground arith
  step-Awake (takes_try out a b e) w = ground arith
  step-Awake (takes_async out b e) w = ground arith
  step-Awake (takes_all_sync out a b c e) w = ground arith
  step-Awake (takes_all_try out a b e) w = ground arith
  step-Awake (takes_all_async out b e) w = ground arith
  step-Awake (pop_sleeps out a b e) w = ground arith
  step-Awake (pop_times_out out a b e) w = ground arith
  step-Awake (pop_let_go out a b e) w = ground arith
  step-Awake (pop_wakes a e) w = ground arith
  step-Awake (stops e) w = ground arith
  step-Awake (notifies_push b e) w = ground arith
  step-Awake (notifies_pop b e) w = ground arith
  step-Awake (clears b e) w = ground arith
  step-Awake (resumes b e) w = ground arith
  step-Awake (limit_changes n b e) w = ground arith

  Reach-Awake : {resizes : Bool} {s t : Waiting A} → Awake s → Reach resizes s t → Awake t
  Reach-Awake w here = w
  Reach-Awake w (next r st) = step-Awake st (Reach-Awake w r)

  -- No wake-up for an item is lost: however the pushes, inserts, pops, time-outs, stops, clears,
  -- resets and changes of the limit interleave, a stop with its flag and its two notifications and a
  -- reset with its two writes in steps of their own, while no stop is under way and some thread is
  -- asleep on `condition_pop_` there are at least as many woken threads on their way as there are
  -- items queued.
  pub no_lost_wakeup :
      (limit : ℕ) {resizes : Bool} {s : Waiting A}
      → Reach resizes (nobody limit) s
      → s.flagged + s.half_notified ≡ 0
      → 0 < s.popping.asleep
      → length s.queue.inner_queue ≤ s.popping.woken
  unfolding make
  no_lost_wakeup limit r n h =
      let w = Reach-Awake (record { enough = inr (inl refl); stopped = inr (inl refl) }) r in
      ground (arith, w.enough)
