-- ===== src/Sqlite/Uses.antt =====
-- Uses of the connection of a Sqlite object (src/target/o_pocket/io/sqlite.cpp).
use device_broker.Prelude.{
  String, true, Option, none, some, List, [], ◌∷◌, ◌≡◌, refl, ℤ, pos, neg, nonzero, arith, inl, inr,
  Bool-cases, All,
}
use device_broker.Sqlite.{opened, closed, Sqlite, is_open, connection, make, cud, r, show, destroy}

-- A call on the object, with what sqlite3 answers.
pub data Call : Type 0 where
  connects executes shows : ℤ → Call
  reads : List (Option String) → Call

unfoldable pub after {ℓ} : {X : Type ℓ} → Option (X × Sqlite) → Option Sqlite
after none = none
after (some (_, s)) = some s

unfoldable pub call : Call → Sqlite → Option Sqlite
unfolding connection cud r show after
call (connects rc) s = some ((connection rc s).1)
call (executes rc) s = after (cud rc s)
call (shows rc) s = after (show rc s)
call (reads columns) s = after (r columns s)

unfoldable pub calls : List Call → Sqlite → Option Sqlite
unfolding call
calls [] s = some s
calls (c ∷ cs) s = elim (call c s) [ none ↦ none | some t ↦ calls cs t ]

-- A `show` that can prepare its statement.
abbrev pub Prepares : Call → Type 0
Prepares (shows rc) = rc ≡ pos 0
Prepares c = Unit

-- The calls were defined and left the connection open.
abbrev pub Opens : Option Sqlite → Type 0
Opens none = ⊥
Opens (some s) = s.db ≡ opened

call-Opens : (c : Call) (s : Sqlite) → Prepares c → s.db ≡ opened → Opens (call c s)
unfolding call after connection cud r show is_open
call-Opens (connects rc) s p e = ground arith
call-Opens (executes rc) s p e = elim (Bool-cases (nonzero s.state)) [
  | inl h ↦ simp (h, e)
  | inr h ↦ simp (h, e)
]
call-Opens (shows rc) s p e = elim (Bool-cases (nonzero s.state)) [
  | inl h ↦ simp (h, e)
  | inr h ↦ simp (h, e, p)
]
call-Opens (reads columns) s p e = simp e

chain-Opens :
    (o : Option Sqlite) (f : Sqlite → Option Sqlite)
    → Opens o
    → ((s : Sqlite) → s.db ≡ opened → Opens (f s))
    → Opens (elim o [ none ↦ none | some t ↦ f t ])
chain-Opens none f h k = h
chain-Opens (some s) f h k = k s h

calls-Opens : (cs : List Call) (s : Sqlite) → All Prepares cs → s.db ≡ opened → Opens (calls cs s)
unfolding calls
calls-Opens [] s h e = e
calls-Opens (c ∷ cs) s h e =
    chain-Opens (call c s) (calls cs) (call-Opens c s h.0 e) (λ t k. calls-Opens cs t h.1 k)

Opens-defined :
    (o : Option Sqlite)
    → Opens o
    → (s : Sqlite) × (o ≡ some s) × (destroy s ≡ some (record s { db = closed }))
unfolding destroy is_open
Opens-defined none h = absurd h
Opens-defined (some s) h = (s, refl, simp h)

make-opened : (left rc : ℤ) → ¬ (left ≡ neg 1) → (make true left rc).db ≡ opened
unfolding make connection
make-opened left rc h = ground (arith, h)

-- Where the file can be opened, `state_` does not happen to hold -1 before it is written, and every
-- `show` can prepare its statement: whatever calls follow the construction and whatever sqlite3
-- answers them, sqlite3 is only ever called with an open connection, which the destructor closes.
pub calls-defined :
    (left rc : ℤ) (cs : List Call)
    → ¬ (left ≡ neg 1)
    → All Prepares cs
    → (s : Sqlite) × (calls cs (make true left rc) ≡ some s)
      × (destroy s ≡ some (record s { db = closed }))
calls-defined left rc cs h p =
    Opens-defined (calls cs (make true left rc))
      (calls-Opens cs (make true left rc) p (make-opened left rc h))

-- A `show` that cannot prepare its statement closes the connection and answers -3, but the object
-- still counts as connected: each later statement, and the destructor, use the closed connection.
pub show_then_use :
    (rc : ℤ) (s : Sqlite)
    → s.state ≡ pos 0
    → s.db ≡ opened
    → ¬ (rc ≡ pos 0)
    → (t : Sqlite) × (show rc s ≡ some (neg 3, t))
      × (t.state ≡ pos 0)
      × ((rc' : ℤ) → cud rc' t ≡ none)
      × ((rc' : ℤ) → show rc' t ≡ none)
      × (destroy t ≡ none)
unfolding show cud destroy is_open
show_then_use rc s a b h =
    (record s { db = closed }, ground (arith, a, b, h), a, λ rc'. simp a, λ rc'. simp a, refl)
