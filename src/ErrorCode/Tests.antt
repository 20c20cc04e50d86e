-- ===== src/ErrorCode/Tests.antt =====
-- The errors' properties at concrete errors (src/target/o_pocket/error/errorcode.cpp).
use device_broker.Prelude.{ℕ, ◌≡◌, refl, true, pos, neg, inl, some}
use device_broker.ErrorCode.{
  Errfac, Erc, Effect, make, make_errfac, throw_priority, log_priority, destroy, assign, move,
  deactivate, quiet, raise, to_value,
}
use device_broker.ErrorCode.Raised.{Configured, thrown_once}

-- A facility that asks for levels out of range, and gets the highest.
abbrev strict : Errfac
strict = record { log_level = 7; throw_level = 7; name = "io" }

strict-Configured : Configured strict
unfolding make_errfac throw_priority log_priority
strict-Configured = Configured.logged_at 20 (Configured.threw_at 9 (Configured.made "io"))

abbrev store : ℕ → Errfac
store n = strict

abbrev emergency : Erc
emergency = record { value = neg 5; priority = 7; active = true; facility = 1 }

emergency_made : make (neg 5) (pos 7) 1 ≡ emergency
unfolding make
emergency_made = refl

-- 2^23 does not fit into the 24 signed bits.
value_wraps : to_value (pos 8388608) ≡ neg 8388608
unfolding to_value
value_wraps = refl

abbrev reported : Effect
reported = record {
  logged = true;
  thrown = some (deactivate emergency);
  after = deactivate emergency;
}

is_reported : reported ≡ destroy store emergency
unfolding destroy raise
is_reported = refl

thrown_once_example :
    (destroy store (deactivate emergency) ≡ quiet (deactivate emergency))
    × (destroy store (deactivate emergency) ≡ quiet (deactivate emergency))
    × (destroy store (assign store emergency emergency).1 ≡ quiet (deactivate emergency))
    × (destroy store (move emergency).1 ≡ quiet (deactivate emergency))
thrown_once_example =
    thrown_once store emergency emergency (deactivate emergency) reported (inl is_reported) refl
