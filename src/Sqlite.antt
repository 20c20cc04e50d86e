-- ===== src/Sqlite.antt =====
-- src/target/o_pocket/io/sqlite.cpp and sqlite.h, class Sqlite: a database file behind one
-- connection. What fopen and the functions of sqlite3 answer is an argument of each operation. An
-- operation gives `none` where it hands sqlite3 a handle that is not open, which is undefined.
pub mod Uses
mod Tests
use device_broker.Prelude.{
  String, Bool, true, false, Option, none, some, List, [], ◌∷◌, ℤ, pos, neg, eq_ℤ, nonzero,
  if◌then◌else◌,
}

-- What `db` points to: nothing that was ever set, an open connection, or one that was closed.
-- `sqlite3_open` gives a connection that is to be closed also where it fails.
pub data Connection : Type 0 where
  unset opened closed : Connection

pub record Sqlite : Type 0 where
  pub db : Connection
  pub state : ℤ

unfoldable pub is_open : Connection → Bool
is_open unset = false
is_open opened = true
is_open closed = false

-- `rc` is the answer of `sqlite3_open`, which is `SQLITE_OK` at 0.
unfoldable pub connection : ℤ → Sqlite → ℤ × Sqlite
connection rc s =
    if eq_ℤ s.state (neg 1)
    then (neg 1, s)
    else if nonzero rc
    then (neg 2, record { db = opened; state = neg 2 })
    else (rc, record { db = opened; state = pos 0 })

-- The constructor. `left` is what `state_` holds before anything is written to it.
unfoldable pub make : Bool → ℤ → ℤ → Sqlite
unfolding connection
make file_opens left rc =
    let s : Sqlite = record { db = unset; state = left } in
    if file_opens
    then (let (ret, t) = connection rc s in record t { state = ret })
    else record s { state = neg 1 }

-- `rc` is the answer of `sqlite3_exec`.
unfoldable pub cud : ℤ → Sqlite → Option (ℤ × Sqlite)
unfolding is_open
cud rc s =
    if nonzero s.state
    then some (neg 1, s)
    else if is_open s.db
    then some (if nonzero rc then neg 2 else pos 0, s)
    else none

-- A column that is NULL reads as the empty string.
unfoldable pub push_column : Option String → String
push_column none = ""
push_column (some val) = val

unfoldable pub push_columns : List (Option String) → List String
push_columns [] = []
push_columns (val ∷ rest) = push_column val ∷ push_columns rest

-- `R`. The columns are those of the first row: none where the statement cannot be prepared, since
-- sqlite3 counts no column of a null statement.
unfoldable pub r : List (Option String) → Sqlite → Option (List String × Sqlite)
unfolding is_open
r columns s = if is_open s.db then some (push_columns columns, s) else none

-- `rc` is the answer of `sqlite3_prepare_v2`; the rows are only logged.
unfoldable pub show : ℤ → Sqlite → Option (ℤ × Sqlite)
unfolding is_open
show rc s =
    if nonzero s.state
    then some (neg 1, s)
    else if is_open s.db
    then some (if nonzero rc then (neg 3, record s { db = closed }) else (pos 0, s))
    else none

-- The destructor.
unfoldable pub destroy : Sqlite → Option Sqlite
unfolding is_open
destroy s = if is_open s.db then some (record s { db = closed }) else none
