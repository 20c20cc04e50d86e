-- ===== src/LoopRate.antt =====
-- src/target/o_pocket/common/loop_rate_control.inl: a loop that is held to a rate. A time is in
-- nanoseconds; the limit is in microseconds, in an unsigned integer of 32 bits. The times that the clock
-- tells, and when a sleep ends, are arguments; the two callbacks change nothing here.
mod Period
mod Tests
use device_broker.Prelude.{
  ℕ, ◌+◌, ◌-◌, ◌/◌, ◌%◌, ◌^◌, Bool, true, false, ℤ, pos, pos_part, ◌-ℤ◌, ltb, ltb_ℤ, ◌==◌,
  if◌then◌else◌,
}

pub record LoopRateControl : Type 0 where
  pub limit_interval_us : ℕ
  pub last_time_point : ℕ
  pub is_fist_enter_control : Bool

unfoldable pub make : ℕ → LoopRateControl
make now = record { limit_interval_us = 0; last_time_point = now; is_fist_enter_control = true }

-- How a call ends: with an exception, at once, or after a sleep of some microseconds.
pub data Passed : Type 0 where
  throws at_once : Passed
  slept : ℕ → Passed

unfoldable pub update_limit_time : ℕ → LoopRateControl → Passed × LoopRateControl
update_limit_time new_limit c =
    if ltb new_limit 1000
    then (throws, c)
    else (at_once, record c { limit_interval_us = new_limit % 2 ^ 32 })

abbrev pub get_last_interval_us : ℕ → LoopRateControl → ℕ
get_last_interval_us now c = (now - c.last_time_point) / 1000

-- Whether the limit is used up, and what is left of it.
unfoldable pub is_out_limit_time : ℕ → LoopRateControl → Bool × ℤ
is_out_limit_time now c =
    let reduce = pos c.limit_interval_us -ℤ pos (get_last_interval_us now c) in
    (if ltb_ℤ (pos 0) reduce then false else true, reduce)

-- `now` is the first time that the clock tells, `later` the time stored at the end.
unfoldable pub control_point : (now later : ℕ) → LoopRateControl → Passed × LoopRateControl
unfolding is_out_limit_time
control_point now later c =
    if c.limit_interval_us == 0
    then (throws, c)
    else if c.is_fist_enter_control
    then (at_once, record c { is_fist_enter_control = false; last_time_point = later })
    else if (is_out_limit_time now c).0
    then (at_once, record c { last_time_point = later })
    else if ltb_ℤ (is_out_limit_time now c).1 (pos 0)
    then (throws, c)
    else (slept (pos_part (is_out_limit_time now c).1), record c { last_time_point = later })
