-- ===== src/FileSystem/Throwing.antt =====
-- Code that may throw while it works on a file system: a small monad. What an action throws it
-- throws in the state that it has reached, and a loop that its fuel does not end is `unending`.
use device_broker.Prelude.{Bool, true, false, Option, none, some, ℤ, neg}

pub data Outcome (A : Type 0) : Type 0 where
  done : A → Outcome A
  raised : Outcome A
  unending : Outcome A

abbrev pub Action : Type 0 → Type 0 → Type 0
Action S A = S → Outcome A × S

module _ {S : Type 0} where
  abbrev pub pure : {A : Type 0} → A → Action S A
  pure a s = (done a, s)

  module _ {A B : Type 0} where
    abbrev pub and_then : Outcome A × S → (A → Action S B) → Outcome B × S
    and_then (done a, s) k = k a s
    and_then (raised, s) k = (raised, s)
    and_then (unending, s) k = (unending, s)

    infixl 5 ◌>>=◌ ◌>>◌
    abbrev pub ◌>>=◌ : Action S A → (A → Action S B) → Action S B
    m >>= k = λ s. and_then (m s) k

    abbrev pub ◌>>◌ : Action S A → Action S B → Action S B
    m >> n = m >>= λ _. n

  -- A question: `none` where it throws.
  abbrev pub ask : {A : Type 0} → (S → Option A) → Action S A
  ask q s = elim (q s) [ none ↦ (raised, s) | some a ↦ (done a, s) ]

  abbrev pub attempted : Bool × S → Outcome (Unit {0}) × S
  attempted (true, s) = (done tt, s)
  attempted (false, s) = (raised, s)

  -- A change: `false` where it throws.
  abbrev pub attempt : (S → Bool × S) → Action S (Unit {0})
  attempt m s = attempted (m s)

  -- `try { .. } catch (const std::exception& e) { return -10; }`
  abbrev pub caught : Outcome ℤ × S → Outcome ℤ × S
  caught (done r, s) = (done r, s)
  caught (raised, s) = (done (neg 10), s)
  caught (unending, s) = (unending, s)

  abbrev pub catching : Action S ℤ → Action S ℤ
  catching m s = caught (m s)
