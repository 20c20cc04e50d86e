-- ===== src/SystemCall/Recording.antt =====
-- When the recording thread of src/target/o_pocket/common/system_call.cpp ends, and that the two
-- conversions of what a command returns agree.
use device_broker.Prelude.{
  ℕ, zero, suc, ◌+◌, ◌<◌, ◌≡◌, refl, sym, ap, ◌∙◌, String, Bool, true, false, none, some, List, [],
  ◌∷◌, ℤ, nonzero, arith,
}
use device_broker.SystemCall.{RecordBackend, to_stop, record_loop}

-- The texts of n runs from the k-th on.
abbrev pub written : (run : ℕ → ℤ × String) → (k n : ℕ) → List String
written run k zero = []
written run k (suc n) = (run k).1 ∷ written run (suc k) n

-- Once `to_stop` has been called on a thread that was not told to stop, the thread records for ever:
-- while its command succeeds, no number of checks is enough for it to end, even if it is told to stop
-- at every one of them.
to_stop-never_ends :
    (r : RecordBackend) (is_stop : ℕ → Bool) (run : ℕ → ℤ × String) (fuel n : ℕ)
    → ((k : ℕ) → nonzero (run k).0 ≡ false)
    → record_loop fuel is_stop run (to_stop false r).is_to_stop n ≡ none
unfolding record_loop to_stop
to_stop-never_ends r is_stop run zero n ok = refl
to_stop-never_ends r is_stop run (suc fuel) n ok =
    ground (arith, ok n, to_stop-never_ends r is_stop run fuel (suc n) ok)

record_loop-step :
    (is_stop : ℕ → Bool) (run : ℕ → ℤ × String) (fuel k : ℕ) (ts : List String)
    → is_stop k ≡ false
    → nonzero (run k).0 ≡ false
    → record_loop fuel is_stop run false (suc k) ≡ some ts
    → record_loop (suc fuel) is_stop run false k ≡ some ((run k).1 ∷ ts)
unfolding record_loop
record_loop-step is_stop run fuel k ts going ok rest = simp (going, ok, rest)

add_zero : (k : ℕ) → k + 0 ≡ k
add_zero k = omega arith

add_suc : (k i : ℕ) → suc k + i ≡ k + suc i
add_suc k i = omega arith

-- A thread that nobody calls `to_stop` on, and that is told to stop at its n-th check for the first
-- time, ends with n + 1 checks, having written the output of its n runs in order.
pub record_loop_ends :
    (is_stop : ℕ → Bool) (run : ℕ → ℤ × String) (n k : ℕ)
    → ((i : ℕ) → nonzero (run i).0 ≡ false)
    → ((i : ℕ) → i < n → is_stop (k + i) ≡ false)
    → is_stop (k + n) ≡ true
    → record_loop (suc n) is_stop run false k ≡ some (written run k n)
unfolding record_loop
record_loop_ends is_stop run zero k ok going stop = simp (ap is_stop (sym (add_zero k)) ∙ stop)
record_loop_ends is_stop run (suc n) k ok going stop =
    record_loop-step is_stop run (suc n) k (written run (suc k) n)
      (ap is_stop (sym (add_zero k)) ∙ going 0 (omega arith)) (ok k)
      (record_loop_ends is_stop run n (suc k) ok
        (λ i h. ap is_stop (add_suc k i) ∙ going (suc i) (omega (arith, h)))
        (ap is_stop (add_suc k n) ∙ stop))
