-- ===== src/Broker/Lost.antt =====
-- A post that nobody hears.
use device_broker.Prelude.{◌≡◌, refl, ◌⊎◌, inl, inr, Bool, true, some, arith}
use device_broker.TaskSuit.{StateEnum, post_task, wait_task}
use device_broker.HttpService.{Job}
use device_broker.Broker.System.{
  waits, sleeps, notify_all, Threads, Step, comes, posts, is_refused, writes, writes_refusal,
  empties, takes, returns, leaves, tests, falls_asleep, told_to_stop, Reach, here, next, started,
}

-- The service thread sleeps with a task in the slot.
abbrev pub Asleep : Job → Threads → Type 0
Asleep job s = (s.thread ≡ sleeps) × (s.suit.task_entity ≡ some job)

module _ (jobs : Job → Bool) where
  Asleep-kept :
      {s t : Threads} (job : Job)
      → Asleep job s
      → Step jobs s t
      → Asleep job t ⊎ (t ≡ record s { thread = waits })
  unfolding post_task notify_all
  Asleep-kept job a (comes signal e) = inl (ground (arith, e, a))
  Asleep-kept job a (posts type other asked ready e f) = absurd (ground (arith, e, a))
  Asleep-kept job a (is_refused type other asked ready e f) = inl (ground (arith, e, f, a))
  Asleep-kept job a (writes other h e) = inl (ground (arith, e, a))
  Asleep-kept job a (takes other w e slot f) = absurd (ground (arith, w, a))
  Asleep-kept job a (returns other c l e) = absurd (ground (arith, c, a))
  Asleep-kept job a (writes_refusal other h e) = inl (ground (arith, e, a))
  Asleep-kept job a (empties w f) = absurd (ground (arith, w, a))
  Asleep-kept job a (leaves w e f) = absurd (ground (arith, w, a))
  Asleep-kept job a (tests w e f) = absurd (ground (arith, w, a))
  Asleep-kept job a (falls_asleep w f) = absurd (ground (arith, w, a))
  Asleep-kept {s} job a (told_to_stop f) = inr (ground (arith, f, a))

  -- A task that is posted between the test of the wait and the sleep is accepted and not heard of: the
  -- service thread sleeps while the task stays in the slot, and no request, refusal or signal changes that,
  -- only to_stop_singal.
  pub lost_post :
      (type : StateEnum) (job : Job)
      → jobs job ≡ true
      → (s : Threads) × Reach jobs started s
        × Asleep job s
        × ((t u : Threads)
            → Asleep job t
            → Step jobs t u
            → Asleep job u ⊎ (u ≡ record t { thread = waits }))
  unfolding post_task wait_task notify_all
  lost_post type job allowed =
      let tested : Step jobs started _ = tests refl refl refl in
      let posted : Step jobs _ _ = posts type job allowed refl refl refl in
      let asleep : Step jobs _ _ = falls_asleep refl refl in
      (
        _,
        next (next (next here tested) posted) asleep,
        (refl, refl),
        λ t u a st. Asleep-kept job a st,
      )
