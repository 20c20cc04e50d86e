-- ===== src/TimeTick/Tests.antt =====
-- The countdown at concrete runs (src/target/o_pocket/common/time_tick.inl).
use device_broker.Prelude.{◌≡◌, refl, true, false, [], ◌∷◌, pos}
use device_broker.TimeTick.{
  TimeTick, launched, asleep, marked, expired, released, make, start, update_expired_time, advance,
  starts, updates, runs, Reach, here, next,
}
use device_broker.TimeTick.Countdown.{Fits, countdown-Fits}

abbrev sleeping : TimeTick
sleeping = record {
  time_ms = pos 50;
  is_expired = false;
  is_running = true;
  threads = asleep (pos 50) ∷ [];
}

-- Started, and an update refused while the thread sleeps.
goes_to_sleep : Reach (make (pos 50)) sleeping
unfolding make start update_expired_time advance
goes_to_sleep =
    let r1 : Reach (make (pos 50)) _ = next here (starts refl) in
    let r2 : Reach (make (pos 50)) _ = next r1 (runs [] [] launched refl refl) in
    let r3 : Reach (make (pos 50)) _ = next r2 (runs [] [] marked refl refl) in
    next r3 (updates (pos 70) refl)

first_countdown : Fits (asleep (pos 50)) sleeping
first_countdown = countdown-Fits (pos 50) (asleep (pos 50)) goes_to_sleep refl

-- A second start: the end of the first thread lets an update through while the second one sleeps.
update_while_asleep :
    (s : TimeTick) × Reach (make (pos 50)) s
    × (s.threads ≡ asleep (pos 50) ∷ released ∷ [])
    × (update_expired_time (pos 70) s ≡ (true, record s { time_ms = pos 70 }))
unfolding make start update_expired_time advance
update_while_asleep =
    let r1 : Reach (make (pos 50)) _ = next here (starts refl) in
    let r2 : Reach (make (pos 50)) _ = next r1 (runs [] [] launched refl refl) in
    let r3 : Reach (make (pos 50)) _ = next r2 (runs [] [] marked refl refl) in
    let r4 : Reach (make (pos 50)) _ = next r3 (starts refl) in
    let r5 : Reach (make (pos 50)) _ =
      next r4 (runs [] (asleep (pos 50) ∷ []) launched refl refl) in
    let r6 : Reach (make (pos 50)) _ = next r5 (runs [] (asleep (pos 50) ∷ []) marked refl refl) in
    let r7 : Reach (make (pos 50)) _ =
      next r6 (runs (asleep (pos 50) ∷ []) [] (asleep (pos 50)) refl refl) in
    let r8 : Reach (make (pos 50)) _ = next r7 (runs (asleep (pos 50) ∷ []) [] expired refl refl) in
    (_, r8, refl, refl)
