-- ===== src/Semaphore/Holders.antt =====
-- Threads that hold permits through the scope guards, in any interleaving
-- (src/target/o_pocket/context/threadpool/semaphore.hpp).
use device_broker.Prelude.{
  ℕ, ◌+◌, ◌-◌, ◌^◌, ◌≤◌, ◌<◌, ◌≡◌, refl, true, false, some, List, [], ◌∷◌, ◌++◌, pos, arith,
}
use native.Mathlib.Nat.{sub-zero}
use device_broker.Semaphore.{
  Semaphore, make, sema_guard_try, sema_guard_async, sema_guard_sync, sema_guard_end,
}
use device_broker.Semaphore.Range.{InRange, make-InRange}

abbrev pub sum : List ℕ → ℕ
sum [] = 0
sum (k ∷ ks) = k + sum ks

sum_middle : (js ks : List ℕ) (k : ℕ) → sum (js ++ k ∷ ks) ≡ k + sum (js ++ ks)
sum_middle [] ks k = refl
sum_middle (j ∷ js) ks k = omega (arith, sum_middle js ks k)

-- The semaphore, and the permit counts of the guards that are alive and own their permits.
pub record Shared : Type 0 where
  pub semaphore : Semaphore
  pub held : List ℕ

pub data Step (s t : Shared) : Type 0 where
  enter_sync :
      (k : ℕ)
      → sema_guard_sync (pos k) s.semaphore ≡ some (true, t.semaphore)
      → t.held ≡ k ∷ s.held
      → Step s t
  enter_try :
      (k : ℕ)
      → sema_guard_try (pos k) s.semaphore ≡ (true, t.semaphore)
      → t.held ≡ k ∷ s.held
      → Step s t
  enter_async :
      (k : ℕ)
      → sema_guard_async (pos k) s.semaphore ≡ (true, t.semaphore)
      → t.held ≡ k ∷ s.held
      → Step s t
  refused :
      (k : ℕ) {m : Semaphore}
      → sema_guard_async (pos k) s.semaphore ≡ (false, m)
      → t.semaphore ≡ sema_guard_end (pos k) false m
      → t.held ≡ s.held
      → Step s t
  leave :
      (k : ℕ) (js ks : List ℕ)
      → s.held ≡ js ++ k ∷ ks
      → t.semaphore ≡ sema_guard_end (pos k) true s.semaphore
      → t.held ≡ js ++ ks
      → Step s t

pub data Reach (s : Shared) : Shared → Type 0 where
  here : Reach s s
  next : {t u : Shared} → Reach s t → Step t u → Reach s u

-- What is free and what is held add up to the limit.
record Accounted (limit : ℕ) (s : Shared) : Type 0 where
  within : InRange s.semaphore (limit - sum s.held)
  total : s.semaphore.permit_limit_max ≡ limit
  bounded : sum s.held ≤ limit

module _ (limit : ℕ) {s t : Shared} (v : Accounted limit s) where
  step-Accounted : Step s t → Accounted limit t
  unfolding sema_guard_sync sema_guard_try sema_guard_async sema_guard_end
  step-Accounted (enter_sync k e h) = ground arith
  step-Accounted (enter_try k e h) = ground arith
  step-Accounted (enter_async k e h) = ground arith
  step-Accounted (refused k e f h) = ground arith
  step-Accounted (leave k js ks h e f) = ground (arith, sum_middle js ks k)

Reach-Accounted : (limit : ℕ) {s t : Shared} → Accounted limit s → Reach s t → Accounted limit t
Reach-Accounted limit v here = v
Reach-Accounted limit v (next r st) = step-Accounted limit (Reach-Accounted limit v r) st

abbrev pub fresh : ℕ → Shared
fresh limit = record { semaphore = make limit; held = [] }

fresh-Accounted : (limit : ℕ) → limit < 2 ^ 31 → Accounted limit (fresh limit)
unfolding make
fresh-Accounted limit h = record {
  within = rw sub-zero (make-InRange limit h);
  total = refl;
  bounded = omega arith;
}

-- From a new semaphore with nothing held and a limit below 2 ^ 31, however the guards of any number of
-- threads interleave, each of which asks for no negative number of permits, the permits held never
-- exceed the limit, and the count is what the limit leaves.
pub held-le-limit :
    (limit : ℕ) {t : Shared}
    → limit < 2 ^ 31
    → Reach (fresh limit) t
    → (sum t.held ≤ limit) × (t.semaphore.permit_available ≡ pos (limit - sum t.held))
held-le-limit limit h r =
    let v = Reach-Accounted limit (fresh-Accounted limit h) r in (v.bounded, v.within.counted)
