-- ===== src/ErrorCode.antt =====
-- src/target/o_pocket/error/errorcode.h and errorcode.cpp: error codes that report themselves when
-- they are destroyed or overwritten, and the facilities that decide what is logged and thrown.
-- A facility is known by its number in a store, since an error keeps a pointer to it. What an
-- operation logs and throws is its result; `std::to_string` is an argument of the message.
pub mod Raised
mod Tests
use Prim.Native.String.{◌++◌}
use device_broker.Prelude.{
  ℕ, suc, ◌+◌, ◌-◌, ◌%◌, ◌^◌, String, Bool, true, false, ◌&&◌, Option, none, some, ℤ, pos, negsuc,
  nonzero, ltb, leb, ◌==◌, not, if◌then◌else◌,
}

pub record Errfac : Type 0 where
  pub log_level : ℕ
  pub throw_level : ℕ
  pub name : String

unfoldable pub make_errfac : String → Errfac
make_errfac name = record { log_level = 3; throw_level = 4; name = name }

-- ERROR_PRI_INFO is 1 and ERROR_PRI_EMERG is 7.
clamp : ℕ → ℕ
clamp level = if ltb level 1 then 1 else if ltb 7 level then 7 else level

unfoldable pub throw_priority : ℕ → Errfac → Errfac
unfolding clamp
throw_priority level f = record f { throw_level = clamp level }

unfoldable pub log_priority : ℕ → Errfac → Errfac
unfolding clamp
log_priority level f = record f { log_level = clamp level }

unfoldable pub set_name : String → Errfac → Errfac
set_name name f = record f { name = name }

-- class erc, its bit fields as numbers.
pub record Erc : Type 0 where
  pub value : ℤ
  pub priority : ℕ
  pub active : Bool
  pub facility : ℕ

-- A value in the 24 signed bits of `value`, and one in the 4 unsigned bits of `priority_`.
unfoldable pub to_value : ℤ → ℤ
to_value (pos n) =
    if ltb (n % 2 ^ 24) (2 ^ 23) then pos (n % 2 ^ 24) else negsuc (2 ^ 24 - 1 - n % 2 ^ 24)
to_value (negsuc n) =
    if ltb (n % 2 ^ 24) (2 ^ 23) then negsuc (n % 2 ^ 24) else pos (2 ^ 24 - 1 - n % 2 ^ 24)

unfoldable pub to_priority : ℤ → ℕ
to_priority (pos n) = n % 2 ^ 4
to_priority (negsuc n) = 2 ^ 4 - 1 - n % 2 ^ 4

-- The default facility is number 0.
unfoldable pub make_success : Erc
make_success = record { value = pos 0; priority = 0; active = false; facility = 0 }

unfoldable pub make : ℤ → ℤ → ℕ → Erc
unfolding to_value to_priority
make v l f = record { value = to_value v; priority = to_priority l; active = true; facility = f }

unfoldable pub deactivate : Erc → Erc
deactivate e = record e { active = false }

unfoldable pub reactivate : Erc → Erc
reactivate e = record e { active = true }

-- The new error, and what is left of the other.
unfoldable pub move : Erc → Erc × Erc
unfolding deactivate
move other = (other, deactivate other)

unfoldable pub to_int : Erc → ℤ × Erc
unfolding deactivate
to_int e = (e.value, deactivate e)

-- What an operation logs, what it throws, and what it leaves of the error.
pub record Effect : Type 0 where
  pub logged : Bool
  pub thrown : Option Erc
  pub after : Erc

abbrev pub quiet : Erc → Effect
quiet e = record { logged = false; thrown = none; after = e }

-- `errfac::raise`: what is thrown is a copy, made after the deactivation.
unfoldable pub raise : Errfac → Erc → Effect
unfolding deactivate
raise f e =
    if leb f.throw_level e.priority
    then record {
      logged = leb f.log_level e.priority;
      thrown = some (deactivate e);
      after = deactivate e;
    }
    else record { logged = leb f.log_level e.priority; thrown = none; after = e }

module _ (store : ℕ → Errfac) where
  -- The destructor.
  unfoldable pub destroy : Erc → Effect
  unfolding raise
  destroy e =
      if nonzero e.value && (e.active && not (e.priority == 0))
      then raise (store e.facility) e
      else quiet e

  assigned : Effect → Erc → Effect
  assigned effect rhs = elim effect.thrown [
    | none ↦ record effect { after = rhs }
    | some _ ↦ effect
  ]

  -- The move assignment: its effect on the left side, and what is left of the right side. A throw
  -- leaves before the right side is taken over.
  unfoldable pub assign : Erc → Erc → Effect × Erc
  unfolding raise assigned deactivate
  assign lhs rhs = (
    if lhs.active && not (lhs.priority == 0)
        then assigned (raise (store lhs.facility) lhs) rhs
        else quiet rhs,
    deactivate rhs,
  )

  module _ (to_string : ℤ → String) where
    unfoldable pub message : Erc → String
    message e = (store e.facility).name ++ (" " ++ to_string e.value)
