-- ===== src/Semaphore/Tests.antt =====
-- The semaphore's properties at concrete counts (src/target/o_pocket/context/threadpool/semaphore.hpp).
use device_broker.Prelude.{◌-◌, ◌≤◌, ◌≡◌, refl, [], ◌∷◌, pos, arith}
use device_broker.Semaphore.{Semaphore, make, sema_guard_sync}
use device_broker.Semaphore.Range.{InRange}
use device_broker.Semaphore.Holders.{Shared, Step, Reach, fresh, held-le-limit}

-- Two of three permits are free.
abbrev two_free : Semaphore
two_free = record { permit_limit_max = 3; permit_available = pos 2 }

two_free-InRange : InRange two_free 2
two_free-InRange = record { counted = refl; within = omega arith; fits = omega arith }

-- One guard for two permits, entered from a semaphore with three.
abbrev one_inside : Shared
one_inside = record {
  semaphore = record { permit_limit_max = 3; permit_available = pos 1 };
  held = 2 ∷ [];
}

enters : Reach (fresh 3) one_inside
unfolding make sema_guard_sync
enters = Reach.next Reach.here (Step.enter_sync 2 refl refl)

held-le-limit_example : (2 ≤ 3) × (pos 1 ≡ pos (3 - 2))
held-le-limit_example = held-le-limit 3 (omega arith) enters
