-- ===== src/Threadloop/Tests.antt =====
-- The loop's properties at concrete runs (src/target/o_pocket/context/threadloop/threadloop_base.cpp).
use device_broker.Prelude.{ℕ, ◌+◌, Bool, true, false, leb}
use device_broker.Threadloop.{Threadlooper, fresh}

-- A client that counts its rounds; a stop comes at the third check.
abbrev counts : ℕ → Bool × ℕ
counts w = (false, w + 1)

abbrev starts : ℕ → Bool × ℕ
starts w = (false, 10)

abbrev ends : ℕ → Bool × ℕ
ends w = (false, w)

abbrev from_two : ℕ → Bool
from_two k = leb 2 k

abbrev ended : Threadlooper
ended = record fresh { joinable = true }
