-- ===== src/Sqlite/Tests.antt =====
-- The database object at concrete answers of sqlite3 (src/target/o_pocket/io/sqlite.cpp).
use device_broker.Prelude.{◌≡◌, refl, true, false, none, some, List, [], ◌∷◌, pos, neg, arith}
use device_broker.Sqlite.{
  Sqlite, opened, closed, is_open, connection, make, cud, r, destroy, push_column, push_columns,
}
use device_broker.Sqlite.Uses.{Call, executes, shows, reads, calls, calls-defined}

abbrev connected : Sqlite
connected = record { db = opened; state = pos 0 }

-- A statement that fails, one that works, a row with a NULL, a show.
abbrev a_few : List Call
a_few = executes (pos 1) ∷ executes (pos 0) ∷ reads (some "a" ∷ none ∷ []) ∷ shows (pos 0) ∷ []

cud_answers :
    (cud (pos 1) connected ≡ some (neg 2, connected))
    × (cud (pos 0) connected ≡ some (pos 0, connected))
unfolding cud is_open
cud_answers = (refl, refl)

null_column : r (some "a" ∷ none ∷ []) connected ≡ some ("a" ∷ "" ∷ [], connected)
unfolding r is_open push_columns push_column
null_column = refl

-- A database that cannot be opened answers -1 to each statement, and is closed all the same.
cannot_open :
    (cud (pos 0) (make true (pos 7) (pos 14)) ≡ some (neg 1, record { db = opened; state = neg 2 }))
    × (destroy (make true (pos 7) (pos 14)) ≡ some (record { db = closed; state = neg 2 }))
unfolding make connection cud destroy is_open
cannot_open = (refl, refl)

-- Where the file cannot be opened, the destructor closes a handle that was never set.
no_file : destroy (make false (pos 7) (pos 0)) ≡ none
unfolding make destroy is_open
no_file = refl

few_are_defined :
    (s : Sqlite) × (calls a_few (make true (pos 7) (pos 0)) ≡ some s)
    × (destroy s ≡ some (record s { db = closed }))
few_are_defined =
    calls-defined (pos 7) (pos 0) a_few (λ e. ground (arith, e)) (tt, (tt, (tt, (refl, tt))))
