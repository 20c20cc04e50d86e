-- ===== src/LoopRate/Tests.antt =====
-- A loop held to one round in two milliseconds (src/target/o_pocket/common/loop_rate_control.inl).
use device_broker.Prelude.{◌+◌, ◌*◌, ◌≤◌, ◌≡◌, refl, false, ◌-ℤ◌, arith}
use device_broker.LoopRate.{LoopRateControl, throws, slept, make, update_limit_time, control_point}
use device_broker.LoopRate.Period.{is_throw, control_point-period}

abbrev rate : LoopRateControl
rate = record { limit_interval_us = 2000; last_time_point = 1000000; is_fist_enter_control = false }

too_short : (update_limit_time 999 (make 0)).0 ≡ throws
unfolding update_limit_time
too_short = refl

no_limit : (control_point 1 1 (make 0)).0 ≡ throws
unfolding control_point make
no_limit = refl

-- Half a millisecond after the last call, a call sleeps one and a half.
sleeps_the_rest : (control_point 1500000 3000000 rate).0 ≡ slept 1500
unfolding control_point ◌-ℤ◌
sleeps_the_rest = refl

control_point-period_example :
    (is_throw (control_point 1500000 3000000 rate).0 ≡ false) × (1000000 + 2000 * 1000 ≤ 3000000)
unfolding control_point ◌-ℤ◌
control_point-period_example =
    control_point-period rate 1500000 3000000 (omega arith) refl (omega arith) (omega arith)
