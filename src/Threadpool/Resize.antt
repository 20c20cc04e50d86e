-- ===== src/Threadpool/Resize.antt =====
-- `change_works_num_sync` and its two callers
-- (src/target/o_pocket/context/threadpool/threadpool.hpp).
use device_broker.Prelude.{
  ℕ, zero, suc, ◌≡◌, ap, ◌<◌, refl, true, not, Option, none, some, List, [], ◌∷◌, ◌++◌, ◌||◌, ℤ,
  pos, neg, ◌+ℤ◌, ◌-ℤ◌, ltb, ltb_ℤ, eq_ℤ, length, length-append, arith, if◌then◌else◌,
}
use device_broker.Threadpool.{Worker, Threadpool, make_worker, launch}

-- The search for the worker that started first, from `it = begin()`: the earliest stamp so far and
-- where it stood. The loop has no `it++`. `none`: not finished within the fuel.
unfoldable pub find_earliest : ℕ → List Worker → ℕ → ℕ → Option ℕ → Option (Option ℕ)
find_earliest zero ws at earliest found = none
find_earliest (suc fuel) [] at earliest found = some found
find_earliest (suc fuel) (w ∷ ws) at earliest found =
    let rest = find_earliest fuel (w ∷ ws) at w.stamp_start (some at) in
    let same = find_earliest fuel (w ∷ ws) at earliest found in
    if ltb w.stamp_start earliest then rest else same

-- The search ends on the empty list only.
find_earliest_hangs :
    (fuel : ℕ) (w : Worker) (ws : List Worker) (at earliest : ℕ) (found : Option ℕ)
    → find_earliest fuel (w ∷ ws) at earliest found ≡ none
unfolding find_earliest
find_earliest_hangs zero w ws at earliest found = refl
find_earliest_hangs (suc fuel) w ws at earliest found = ground (
  arith,
  find_earliest_hangs fuel w ws at w.stamp_start (some at),
  find_earliest_hangs fuel w ws at earliest found,
)

unfoldable pub erase_at : ℕ → List Worker → List Worker
erase_at n [] = []
erase_at zero (w ∷ ws) = ws
erase_at (suc n) (w ∷ ws) = w ∷ erase_at n ws

module _ {ℓ} {T : Type ℓ} where
  -- The worker found is stopped, joined and erased; with none found, the first one.
  remove_one : Option ℕ → Threadpool T → Threadpool T
  unfolding erase_at
  remove_one none p = record p { worker_list = erase_at 0 p.worker_list }
  remove_one (some i) p = record p { worker_list = erase_at i p.worker_list }

  unfoldable pub change_works_num_sync : ℕ → ℕ → ℤ → Threadpool T → Option (ℤ × Threadpool T)
  unfolding remove_one
  change_works_num_sync fuel now expect p =
      let size = pos (length p.worker_list) in
      if not p.is_start_works || eq_ℤ expect size || ltb_ℤ expect (pos 0)
      then some (neg 1, p)
      else if ltb_ℤ size expect
      then some (pos 0, record p { worker_list = p.worker_list ++ launch now (make_worker 0) ∷ [] })
      else (elim (find_earliest fuel p.worker_list 0 now none) [
        | none ↦ none
        | some found ↦ some (pos 0, remove_one found p)
      ])

  unfoldable pub change_works_num_sync_increase :
      ℕ → ℕ → ℤ → Threadpool T → Option (ℤ × Threadpool T)
  unfolding ◌+ℤ◌
  change_works_num_sync_increase fuel now n p =
      change_works_num_sync fuel now (pos (length p.worker_list) +ℤ n) p

  unfoldable pub change_works_num_sync_reduce : ℕ → ℕ → ℤ → Threadpool T → Option (ℤ × Threadpool T)
  unfolding ◌-ℤ◌
  change_works_num_sync_reduce fuel now n p =
      change_works_num_sync fuel now (pos (length p.worker_list) -ℤ n) p

  -- A started pool that is asked for fewer workers than it has, and for at least none, never
  -- answers: whatever fuel the search is given runs out.
  reduce_hangs :
      (fuel now expect : ℕ) (p : Threadpool T)
      → p.is_start_works ≡ true
      → expect < length p.worker_list
      → change_works_num_sync fuel now (pos expect) p ≡ none
  unfolding change_works_num_sync
  reduce_hangs fuel now expect p s h = reduce p.worker_list refl
    where
      reduce :
          (ws : List Worker)
          → p.worker_list ≡ ws
          → change_works_num_sync fuel now (pos expect) p ≡ none
      reduce [] e = absurd (omega (arith, ap length e))
      reduce (w ∷ ws) e = ground (arith, find_earliest_hangs fuel w ws 0 now none)

  -- A started pool that is asked for more workers gets exactly one more, however many were asked.
  pub grow_adds_one :
      (fuel now expect : ℕ) (p : Threadpool T)
      → p.is_start_works ≡ true
      → length p.worker_list < expect
      → (q : Threadpool T) × (change_works_num_sync fuel now (pos expect) p ≡ some (pos 0, q))
        × (length q.worker_list ≡ suc (length p.worker_list))
        × (q.task_queue ≡ p.task_queue)
  unfolding change_works_num_sync
  grow_adds_one fuel now expect p s h = (
    record p { worker_list = p.worker_list ++ launch now (make_worker 0) ∷ [] },
    ground arith,
    omega (arith, length-append p.worker_list (launch now (make_worker 0) ∷ [])),
    refl,
  )
