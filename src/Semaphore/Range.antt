-- ===== src/Semaphore/Range.antt =====
-- The permit count stays within the limit (src/target/o_pocket/context/threadpool/semaphore.hpp).
use device_broker.Prelude.{none, ℕ, suc, ◌+◌, ◌-◌, ◌^◌, ◌≤◌, ◌<◌, ◌≡◌, some, pos, neg, arith, min}
use device_broker.Semaphore.{Semaphore, make, try_acquire, acquire_sync, acquire_async, release}

-- Between 0 and a limit that an `int` can hold.
pub record InRange (s : Semaphore) (free : ℕ) : Type 0 where
  pub counted : s.permit_available ≡ pos free
  pub within : free ≤ s.permit_limit_max
  pub fits : s.permit_limit_max < 2 ^ 31

-- A new semaphore whose limit an `int` can hold has all its permits.
pub make-InRange : (limit : ℕ) → limit < 2 ^ 31 → InRange (make limit) limit
unfolding make
make-InRange limit h = record { counted = ground arith; within = omega arith; fits = h }

module _ (s : Semaphore) (free n : ℕ) (v : InRange s free) where
  -- Where n permits are free, the three acquires agree: each takes n and answers 0.
  pub acquire_lem :
      n ≤ free
      → let t = record s { permit_available = pos (free - n) } in
        (acquire_sync (pos n) s ≡ some (pos 0, t))
        × (try_acquire (pos n) s ≡ (pos 0, t))
        × (acquire_async (pos n) s ≡ (pos 0, t))
  unfolding try_acquire acquire_sync acquire_async
  acquire_lem h = ground arith

  -- Where fewer are free, the blocking acquire waits, and the others answer -1 and take nothing.
  pub acquire_refused :
      free < n
      → (acquire_sync (pos n) s ≡ none)
        × (try_acquire (pos n) s ≡ (neg 1, s))
        × (acquire_async (pos n) s ≡ (neg 1, s))
  unfolding try_acquire acquire_sync acquire_async
  acquire_refused h = ground arith

  -- A release that stays within `int` adds its permits, up to the limit.
  pub release_lem :
      free + n < 2 ^ 31
      → release (pos n) s
        ≡ (pos 0, record s { permit_available = pos (min s.permit_limit_max (free + n)) })
  unfolding release
  release_lem h = ground arith

-- A release of a negative count that takes the count below 0 makes every permit free.
pub release_negative_fills :
    (s : Semaphore) (free n : ℕ)
    → InRange s free
    → free < n
    → n < 2 ^ 31
    → (release (neg n) s).1.permit_available ≡ pos s.permit_limit_max
unfolding release
release_negative_fills s free (suc n) v h k = ground arith
release_negative_fills s free _ v h k = absurd (omega arith)
