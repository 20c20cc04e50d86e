-- ===== src/Threadloop.antt =====
-- src/target/o_pocket/context/threadloop/threadloop_base.cpp and threadloop_base.h: the service
-- thread's loop. The three virtual methods are arguments over the client's state W. Another thread
-- may set `to_stop_`, or a signal come, at any time: what the loop reads at its k-th check is an
-- argument too.
pub mod Run
mod Tests
use device_broker.Prelude.{
  ℕ, zero, suc, ◌+◌, Bool, true, false, ◌||◌, Option, none, some, ℤ, pos, neg, if◌then◌else◌,
}

-- `work_` is a std::thread; `joinable` is its `joinable()`.
pub record Threadlooper : Type 0 where
  pub loop_counter : ℕ
  pub is_running : Bool
  pub to_stop : Bool
  pub joinable : Bool

abbrev pub fresh : Threadlooper
fresh = record { loop_counter = 0; is_running = false; to_stop = true; joinable = false }

module _ {ℓ} {W : Type ℓ} (do_init do_once do_release : W → Bool × W) (stops : ℕ → Bool) where
  -- The `for`: `stops k` is what the check after k rounds reads of the other threads and of the
  -- signal. `none`: not finished within the fuel.
  unfoldable pub loop : ℕ → Threadlooper → W → Option (Threadlooper × W)
  loop zero l w = none
  loop (suc fuel) l w =
      let (done, w') = do_once w in
      let counted = record l { loop_counter = l.loop_counter + 1 } in
      let rest = loop fuel counted w' in
      if l.to_stop || stops l.loop_counter
      then some (l, w)
      else if done
      then some (record counted { to_stop = true }, w')
      else rest

  prepare : Threadlooper → W → Threadlooper × W
  prepare l w =
      let (failed, w') = do_init w in
      if failed
      then (record l { loop_counter = 0; to_stop = true; is_running = false }, w')
      else (record l { loop_counter = 0; to_stop = false; is_running = true }, w')

  finish : Threadlooper × W → Threadlooper × W
  finish (l, w) = (record l { to_stop = true; is_running = false }, (do_release w).1)

  unfoldable pub run_logic : ℕ → Threadlooper → W → Option (Threadlooper × W)
  unfolding loop prepare finish
  run_logic fuel l w =
      let (l', w') = prepare l w in
      elim (loop fuel l' w') [ none ↦ none | some end ↦ some (finish end) ]

  unfoldable pub launch_front : ℕ → Threadlooper → W → Option (ℤ × Threadlooper × W)
  unfolding run_logic
  launch_front fuel l w =
      if l.is_running
      then some (neg 1, l, w)
      else (elim (run_logic fuel l w) [ none ↦ none | some (l', w') ↦ some (pos 0, l', w') ])

-- The assignment to `work_` calls std::terminate where `work_` is still joinable: `none`.
unfoldable pub launch_back : Threadlooper → Option (ℤ × Threadlooper)
launch_back l =
    if l.is_running
    then some (neg 1, l)
    else if l.joinable
    then none
    else some (pos 0, record l { joinable = true })

unfoldable pub join : Threadlooper → Threadlooper
join l = if l.joinable then record l { joinable = false } else l

unfoldable pub detach : Threadlooper → Threadlooper
detach l = if l.joinable then record l { joinable = false } else l

unfoldable pub signal_stop : Threadlooper → Threadlooper
signal_stop l = record l { to_stop = true }
