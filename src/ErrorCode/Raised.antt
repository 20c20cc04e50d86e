-- ===== src/ErrorCode/Raised.antt =====
-- When an error is reported (src/target/o_pocket/error/errorcode.h, errorcode.cpp).
use device_broker.Prelude.{ℕ, ◌≤◌, ◌≡◌, String, true, some, nonzero, arith, ◌⊎◌}
use device_broker.ErrorCode.{
  Errfac, Erc, Effect, make_errfac, throw_priority, log_priority, set_name, clamp, destroy, assign,
  raise, move, deactivate, quiet, assigned,
}

-- A facility set up by any calls of its setters.
pub data Configured : Errfac → Type 0 where
  made : (name : String) → Configured (make_errfac name)
  threw_at : (level : ℕ) {f : Errfac} → Configured f → Configured (throw_priority level f)
  logged_at : (level : ℕ) {f : Errfac} → Configured f → Configured (log_priority level f)
  named : (name : String) {f : Errfac} → Configured f → Configured (set_name name f)

record Levels (f : Errfac) : Type 0 where
  log_low : 1 ≤ f.log_level
  log_high : f.log_level ≤ 7
  throw_low : 1 ≤ f.throw_level
  throw_high : f.throw_level ≤ 7

Configured-Levels : {f : Errfac} → Configured f → Levels f
unfolding make_errfac throw_priority log_priority set_name clamp
Configured-Levels (made name) = record {
  log_low = omega arith;
  log_high = omega arith;
  throw_low = omega arith;
  throw_high = omega arith;
}
Configured-Levels (threw_at level c) = ground (arith, Configured-Levels c)
Configured-Levels (logged_at level c) = ground (arith, Configured-Levels c)
Configured-Levels (named name c) = ground (arith, Configured-Levels c)

-- However a facility is set up, an active error that has a value is logged and thrown when it is
-- destroyed if its priority is the highest or above.
pub emergency_reported :
    (store : ℕ → Errfac) (e : Erc)
    → Configured (store e.facility)
    → nonzero e.value ≡ true
    → e.active ≡ true
    → 7 ≤ e.priority
    → destroy store e ≡ record { logged = true; thrown = some (deactivate e); after = deactivate e }
unfolding destroy raise
emergency_reported store e c v a h = ground (arith, Configured-Levels c)

deactivated_is_quiet :
    (store : ℕ → Errfac) (e : Erc) → destroy store (deactivate e) ≡ quiet (deactivate e)
unfolding destroy deactivate
deactivated_is_quiet store e = ground arith

-- What a destruction or an assignment does to the error that it destroys or overwrites.
abbrev pub Ends : (ℕ → Errfac) → Erc → Erc → Effect → Type 0
Ends store lhs rhs effect = (effect ≡ destroy store lhs) ⊎ (effect ≡ (assign store lhs rhs).0)

thrown_inactive :
    (store : ℕ → Errfac) (lhs rhs thrown : Erc) (effect : Effect)
    → Ends store lhs rhs effect
    → effect.thrown ≡ some thrown
    → (thrown ≡ deactivate lhs) × (effect.after ≡ deactivate lhs)
unfolding destroy assign raise assigned
thrown_inactive store lhs rhs thrown effect h e = ground (arith, h, e)

-- An error is reported once: where a destruction or an assignment throws, the copy that is thrown
-- is destroyed without a word, and so is what is left of the error that it reports; and of an error
-- that is moved, or assigned from, what is left behind is too.
pub thrown_once :
    (store : ℕ → Errfac) (lhs rhs thrown : Erc) (effect : Effect)
    → Ends store lhs rhs effect
    → effect.thrown ≡ some thrown
    → (destroy store thrown ≡ quiet thrown)
      × (destroy store effect.after ≡ quiet effect.after)
      × (destroy store (assign store lhs rhs).1 ≡ quiet (deactivate rhs))
      × (destroy store (move rhs).1 ≡ quiet (deactivate rhs))
unfolding assign move
thrown_once store lhs rhs thrown effect h e =
    let (copy, left) = thrown_inactive store lhs rhs thrown effect h e in
    (
      rw copy (deactivated_is_quiet store lhs),
      rw left (deactivated_is_quiet store lhs),
      deactivated_is_quiet store rhs,
      deactivated_is_quiet store rhs,
    )
