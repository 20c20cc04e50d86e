-- ===== src/Semaphore.antt =====
-- src/target/o_pocket/context/threadpool/semaphore.hpp: the counting semaphore and its scope guards.
-- An operation is one critical section under `mutex_`, read when its wait ends. The count is an
-- `int` and the limit a `size_t`: a comparison of the two converts the count to `size_t`. A sum
-- that leaves `int`, undefined in C++, is given its two's-complement value.
pub mod Range
pub mod Holders
mod Tests
use device_broker.Prelude.{
  ℕ, suc, ◌+◌, ◌-◌, ◌%◌, ◌^◌, Bool, true, false, Option, none, some, ℤ, pos, negsuc, neg, ◌+ℤ◌,
  ◌-ℤ◌, ltb, leb, ltb_ℤ, leb_ℤ, nonzero, if◌then◌else◌,
}

pub record Semaphore : Type 0 where
  pub permit_limit_max : ℕ
  pub permit_available : ℤ

-- (int)n of a size_t
unfoldable pub to_int : ℕ → ℤ
to_int n = if ltb (n % 2 ^ 32) (2 ^ 31) then pos (n % 2 ^ 32) else negsuc (2 ^ 32 - 1 - n % 2 ^ 32)

-- (size_t)a of an int
unfoldable pub to_size : ℤ → ℕ
to_size (pos n) = n
to_size (negsuc n) = 2 ^ 64 - 1 - n

-- a sum or difference of two ints, as an int
unfoldable pub wrap : ℤ → ℤ
unfolding ◌+ℤ◌ ◌-ℤ◌
wrap a =
    if ltb_ℤ a (neg (2 ^ 31))
    then a +ℤ pos (2 ^ 32)
    else if leb_ℤ (pos (2 ^ 31)) a
    then a -ℤ pos (2 ^ 32)
    else a

unfoldable pub make : ℕ → Semaphore
unfolding to_int
make limit = record { permit_limit_max = limit; permit_available = to_int limit }

take_permits : ℤ → Semaphore → Semaphore
unfolding wrap ◌-ℤ◌
take_permits n s = record s { permit_available = wrap (s.permit_available -ℤ n) }

unfoldable pub try_acquire : ℤ → Semaphore → ℤ × Semaphore
unfolding take_permits
try_acquire n s = if leb_ℤ n s.permit_available then (pos 0, take_permits n s) else (neg 1, s)

unfoldable pub acquire_sync : ℤ → Semaphore → Option (ℤ × Semaphore)
unfolding take_permits
acquire_sync n s = if leb_ℤ n s.permit_available then some (pos 0, take_permits n s) else none

unfoldable pub acquire_async : ℤ → Semaphore → ℤ × Semaphore
unfolding take_permits
acquire_async n s = if ltb_ℤ s.permit_available n then (neg 1, s) else (pos 0, take_permits n s)

unfoldable pub release : ℤ → Semaphore → ℤ × Semaphore
unfolding wrap to_size to_int ◌+ℤ◌
release n s =
    let sum = wrap (s.permit_available +ℤ n) in
    (
      pos 0,
      record s {
        permit_available =
            if ltb s.permit_limit_max (to_size sum) then to_int s.permit_limit_max else sum;
      },
    )

unfoldable pub release_all : Semaphore → ℤ × Semaphore
unfolding to_size to_int
release_all s =
    if ltb (to_size s.permit_available) s.permit_limit_max
    then (pos 0, record s { permit_available = to_int s.permit_limit_max })
    else (pos 0, s)

unfoldable pub query_available_permit : Semaphore → ℤ
query_available_permit s = s.permit_available

-- The scope guards: what the constructor leaves, with `is_call_success_`, and the destructor.
unfoldable pub sema_guard_try : ℤ → Semaphore → Bool × Semaphore
unfolding try_acquire
sema_guard_try n s = let (ret, t) = try_acquire n s in (if nonzero ret then false else true, t)

unfoldable pub sema_guard_async : ℤ → Semaphore → Bool × Semaphore
unfolding acquire_async
sema_guard_async n s = let (ret, t) = acquire_async n s in (if nonzero ret then false else true, t)

unfoldable pub sema_guard_sync : ℤ → Semaphore → Option (Bool × Semaphore)
unfolding acquire_sync
sema_guard_sync n s = elim (acquire_sync n s) [
  | none ↦ none
  | some (ret, t) ↦ some (if nonzero ret then false else true, t)
]

unfoldable pub sema_guard_end : ℤ → Bool → Semaphore → Semaphore
unfolding release
sema_guard_end n is_call_success s = if is_call_success then (release n s).1 else s
