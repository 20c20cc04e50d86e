-- ===== src/Threadpool/Priority.antt =====
-- The order in which a pool runs its tasks
-- (src/target/o_pocket/context/threadpool/threadpool.hpp).
use device_broker.Prelude.{
  ◌≡◌, refl, Bool, true, false, Option, some, List, [], ◌∷◌, ◌++◌, String, ℤ, ◌≤ℤ◌, arith, All,
  All-map, inl, inr, Bool-cases, ◌⊎◌,
}
use device_broker.SafeQueue.{insert_before, insert_sync, insert_async, try_insert, pop_sync}
use device_broker.Threadpool.{
  TaskTuple, Threadpool, not_before, enqueue_task_sync, enqueue_task_async, enqueue_task_try,
  work_each_entity,
}

module _ {ℓ} {T : Type ℓ} where
  -- No task stands behind one of a larger priority number.
  abbrev pub IsSorted : List (TaskTuple T) → Type 0
  IsSorted [] = Unit
  IsSorted (x ∷ xs) = All (λ y. x.priority ≤ℤ y.priority) xs × IsSorted xs

  abbrev AllAbove : ℤ → List (TaskTuple T) → Type 0
  AllAbove n xs = All (λ y. n ≤ℤ y.priority) xs

  insert-AllAbove :
      (p : TaskTuple T → Bool) (v : TaskTuple T) (n : ℤ) (xs : List (TaskTuple T))
      → n ≤ℤ v.priority
      → AllAbove n xs
      → AllAbove n (insert_before p v xs)
  unfolding insert_before
  insert-AllAbove p v n [] h a = (h, tt)
  insert-AllAbove p v n (x ∷ xs) h a = elim (Bool-cases (p x)) [
    | inl now ↦ rw now (h, a)
    | inr later ↦ rw later (a.0, insert-AllAbove p v n xs h a.1)
  ]

  not_before-le : (n : ℤ) (x : TaskTuple T) → not_before n x ≡ true → n ≤ℤ x.priority
  not_before-le n x e = ground arith

  le-not_before : (n : ℤ) (x : TaskTuple T) → not_before n x ≡ false → x.priority ≤ℤ n
  le-not_before n x e = ground arith

  insert-IsSorted :
      (v : TaskTuple T) (xs : List (TaskTuple T))
      → IsSorted xs
      → IsSorted (insert_before (not_before v.priority) v xs)
  unfolding insert_before
  insert-IsSorted v [] s = (tt, tt)
  insert-IsSorted v (x ∷ xs) s = elim (Bool-cases (not_before v.priority x)) [
    | inl now ↦
        let first = not_before-le v.priority x now in
        rw now ((first, All-map _ _ (λ y h. omega arith) xs s.0), s)
    | inr later ↦ rw later (
      insert-AllAbove _ v x.priority xs (le-not_before v.priority x later) s.0,
      insert-IsSorted v xs s.1,
    )
  ]

  -- Each of the three enqueues keeps the queue sorted by priority, whatever it answers.
  pub enqueue-IsSorted :
      (t : T) (n : ℤ) (tag : String) (p : Threadpool T) {q : Threadpool T}
      → IsSorted p.task_queue.inner_queue
      → (enqueue_task_sync t n tag p ≡ some q)
        ⊎ (((enqueue_task_async t n tag p).1 ≡ q) ⊎ ((enqueue_task_try t n tag p).1 ≡ q))
      → IsSorted q.task_queue.inner_queue
  unfolding enqueue_task_sync enqueue_task_async enqueue_task_try insert_sync insert_async
      try_insert
  enqueue-IsSorted t n tag p s e = ground (
    arith,
    insert-IsSorted (record { task = some t; priority = n; tag = tag }) p.task_queue.inner_queue s,
  )

  -- A worker of a running pool that gets a task takes the first one queued; in a sorted queue
  -- no waiting task has a smaller priority number.
  work-takes_least :
      (p : Threadpool T) (x : TaskTuple T) (xs : List (TaskTuple T)) {r : Option T}
      {q : Threadpool T}
      → p.task_queue.inner_queue ≡ x ∷ xs
      → p.task_queue.is_stop_flag ≡ false
      → IsSorted (x ∷ xs)
      → work_each_entity p ≡ some (r, q)
      → (r ≡ x.task) × (q.task_queue.inner_queue ≡ xs) × All (λ y. x.priority ≤ℤ y.priority) xs
  unfolding work_each_entity pop_sync
  work-takes_least p x xs e f s h = ground (arith, s.0)

  -- The newest task goes behind those with a smaller number and before all the others: among
  -- tasks of one priority the last one enqueued is the first one run.
  pub insert_before_newest_first :
      (v : TaskTuple T) (xs : List (TaskTuple T))
      → IsSorted xs
      → (lows highs : List (TaskTuple T)) × (xs ≡ lows ++ highs)
        × (insert_before (not_before v.priority) v xs ≡ lows ++ v ∷ highs)
        × All (λ x. not_before v.priority x ≡ false) lows
        × All (λ x. v.priority ≤ℤ x.priority) highs
  unfolding insert_before
  insert_before_newest_first v [] s = ([], [], refl, refl, tt, tt)
  insert_before_newest_first v (x ∷ xs) s = elim (Bool-cases (not_before v.priority x)) [
    | inl now ↦
        let first = not_before-le v.priority x now in
        ([], x ∷ xs, refl, rw now, tt, (first, All-map _ _ (λ y h. omega arith) xs s.0))
    | inr later ↦
        let (lows, highs, split, placed, below, above) = insert_before_newest_first v xs s.1 in
        (x ∷ lows, highs, cc, rw later (cc), (later, below), above)
  ]
