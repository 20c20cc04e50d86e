-- ===== src/Threadloop/Run.antt =====
-- How a run of the loop ends (src/target/o_pocket/context/threadloop/threadloop_base.cpp).
use native.Mathlib.Nat.{add-zero}
use device_broker.Prelude.{
  ap, inl, inr, Bool-cases, ◌-◌, ℕ, zero, suc, ◌+◌, ◌≤◌, ◌<◌, ◌≡◌, refl, Bool, true, false, none,
  some, pos, arith, ◌||◌, if◌then◌else◌,
}
use device_broker.Threadloop.{Threadlooper, loop, run_logic, launch_back, join}

module _ {ℓ} {W : Type ℓ} (do_init do_once do_release : W → Bool × W) (stops : ℕ → Bool) where
  -- The state after k rounds.
  abbrev pub after_rounds : ℕ → W → W
  after_rounds zero w = w
  after_rounds (suc k) w = after_rounds k (do_once w).1

  not_yet : (n c : ℕ) (b : Bool) → stops (c + n) ≡ true → (b || stops c) ≡ false → 0 < n
  not_yet zero c b s h = absurd (grind (arith, ap stops (add-zero c)))
  not_yet (suc n) c b s h = omega arith

  loop_ends :
      (n fuel : ℕ) (l : Threadlooper) (w : W)
      → stops (l.loop_counter + n) ≡ true
      → n < fuel
      → (k : ℕ) × (m : Threadlooper) × (loop do_init do_once do_release stops fuel l w
          ≡ some (m, after_rounds k w))
        × (k ≤ n)
        × (m.loop_counter ≡ l.loop_counter + k)
  unfolding loop
  loop_ends n zero l w s h = absurd (omega arith)
  loop_ends n (suc fuel) l w s h = elim (Bool-cases (l.to_stop || stops l.loop_counter)) [
    | inl end ↦ (0, l, rw end, omega arith, omega arith)
    | inr go ↦
        let later = not_yet n l.loop_counter l.to_stop s go in
        elim (Bool-cases (do_once w).0) [
          | inl done ↦ (
            1,
            record l { loop_counter = l.loop_counter + 1; to_stop = true },
            rw (go, done),
            omega arith,
            omega arith,
          )
          | inr more ↦
              let shift : l.loop_counter + 1 + (n - 1) ≡ l.loop_counter + n = omega arith in
              let (k, m, e, b, c) =
                loop_ends (n - 1) fuel (record l { loop_counter = l.loop_counter + 1 })
                  (do_once w).1 (rw shift s) (omega arith) in
              (suc k, m, rw (go, more) e, omega arith, omega arith)
        ]
  ]

  -- A run that an outside stop, or a signal, reaches at its n-th check ends, with fuel for n + 1
  -- checks: it has called `do_init` once, then `do_once` at most n times, none if the
  -- initialisation failed, then `do_release` once, and it leaves the looper stopped, not running,
  -- its counter the number of rounds.
  pub run_logic_ends :
      (n fuel : ℕ) (l : Threadlooper) (w : W)
      → stops n ≡ true
      → n < fuel
      → (k : ℕ) × (m : Threadlooper) × (run_logic do_init do_once do_release stops fuel l w
          ≡ some (m, (do_release (after_rounds k (do_init w).1)).1))
        × (k ≤ (if (do_init w).0 then 0 else n))
        × (m.loop_counter ≡ k)
        × (m.is_running ≡ false)
        × (m.to_stop ≡ true)
  unfolding run_logic
  run_logic_ends n zero l w s h = absurd (omega arith)
  run_logic_ends n (suc fuel) l w s h = elim (Bool-cases (do_init w).0) [
    | inl failed ↦ (
      0,
      record l { loop_counter = 0; to_stop = true; is_running = false },
      rw (failed, run_logic),
      omega arith,
      refl,
      refl,
      refl,
    )
    | inr ready ↦
        let begun : Threadlooper = record l {
          loop_counter = 0;
          to_stop = false;
          is_running = true;
        } in
        let shift : 0 + n ≡ n = omega arith in
        let (k, m, e, b, c) = loop_ends n (suc fuel) begun (do_init w).1 (rw shift s) h in
        (
          k,
          record m { to_stop = true; is_running = false },
          rw (ready, run_logic) (rw (e, run_logic)),
          rw ready b,
          omega arith,
          refl,
          refl,
        )
  ]

-- Where the thread of a launch has ended and was not joined, the next `launch_back` kills the
-- process; after a `join` it succeeds.
pub launch_back_joinable :
    (l : Threadlooper)
    → l.is_running ≡ false
    → l.joinable ≡ true
    → (launch_back l ≡ none) × (launch_back (join l) ≡ some (pos 0, l))
unfolding launch_back join
launch_back_joinable l r j = (ground arith, ground arith)
