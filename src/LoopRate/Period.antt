-- ===== src/LoopRate/Period.antt =====
-- The rate to which src/target/o_pocket/common/loop_rate_control.inl holds a loop.
use device_broker.Prelude.{ℕ, ◌+◌, ◌*◌, ◌≤◌, ◌<◌, ◌≡◌, false, true, Bool, ◌-ℤ◌, arith}
use device_broker.LoopRate.{
  LoopRateControl, Passed, throws, at_once, slept, control_point, is_out_limit_time,
}

-- How long a call sleeps, in nanoseconds.
abbrev pub wait : Passed → ℕ
wait throws = 0
wait at_once = 0
wait (slept us) = us * 1000

abbrev pub is_throw : Passed → Bool
is_throw throws = true
is_throw at_once = false
is_throw (slept us) = false

-- Where the clock is not set back and a sleep is not cut short, each call of a loop that has a limit
-- and has been called before ends without an exception, at least the limit after the last call ended.
pub control_point-period :
    (c : LoopRateControl) (now later : ℕ)
    → 0 < c.limit_interval_us
    → c.is_fist_enter_control ≡ false
    → c.last_time_point ≤ now
    → now + wait (control_point now later c).0 ≤ later
    → (is_throw (control_point now later c).0 ≡ false)
      × (c.last_time_point + c.limit_interval_us * 1000
          ≤ (control_point now later c).1.last_time_point)
unfolding control_point is_out_limit_time ◌-ℤ◌
control_point-period c now later limited again forward woken = ground arith
