-- ===== src/Database/Driver.antt =====
-- database/driver.go: the adapter to database/sql. A driver.NamedValue is a name and a value;
-- sql.IsolationLevel is a number, with the constants of database/sql.
pub mod Dsn
pub mod Adapters
pub mod Retry
mod Runs
use jt400_go.Prelude.{
  ℕ, Bool, true, false, not, ◌&&◌, ◌||◌, Option, none, some, List, [], ◌∷◌, ◌==◌, if◌then◌else◌,
}
use jt400_go.Prelude.Int.{ℤ, pos}
use jt400_go.Go.{Result, ok, err, panic, stuck, ◌>>=◌, wrap, Bytes}
use jt400_go.Go.Strings.{is_nil}
use jt400_go.Database.Ccsid.{decode_server_text}
use jt400_go.Database.Format.{Field, base_type}
use jt400_go.Database.Value.{Platform, Value, type_packed, type_zoned}
use jt400_go.Database.Conn.{Session, DbError, err_conn_broken, joined, begin_tx, ping}
use jt400_go.Database.Stmt.{World, Settings, Step, StmtError, server, both}
use jt400_go.Database.Stmt.Prepare.{prepare}
use jt400_go.Database.Stmt.Run.{exec, query_values}

pub data DriverError (E : Type 0) : Type 0 where
  bad_conn read_only named_parameters : DriverError E
  unsupported_isolation : ℕ → DriverError E
  other : E → DriverError E

-- errors.Is(err, ErrConnBroken), through errors.Join
unfoldable pub is_broken : DbError → Bool
is_broken err_conn_broken = true
is_broken (joined e e') = is_broken e || is_broken e'
is_broken _ = false

unfoldable pub is_broken_stmt : StmtError → Bool
unfolding is_broken
is_broken_stmt (server e) = is_broken e
is_broken_stmt (both e e') = is_broken_stmt e || is_broken_stmt e'
is_broken_stmt _ = false

-- badConn
abbrev pub map_bad : {E : Type 0} → (E → Bool) → E → DriverError E
map_bad broken e = if broken e then bad_conn else other e

-- The switch of BeginTx on the level: the default and READ UNCOMMITTED are *CHG.
unfoldable pub isolation_level : ℕ → Option ℕ
isolation_level n =
    if n == 0 || n == 1
    then some 1
    else if n == 2
    then some 2
    else if n == 4
    then some 3
    else if n == 6
    then some 4
    else none

-- ResetSession gives ErrBadConn exactly if this fails, and IsValid gives it.
unfoldable pub is_valid : Session → Bool
is_valid s = not s.broken && (not s.closed && not s.in_tx)

unfoldable pub reset_session : Session → Result (DriverError DbError) (Unit {0})
reset_session s = if s.broken || (s.closed || s.in_tx) then err bad_conn else ok tt

-- positional
unfoldable pub positional :
    {A : Type 0} → List (Bytes × A) → Result (DriverError StmtError) (List A)
positional [] = ok []
positional ((name, a) ∷ args) =
    let more = positional args in
    if not (is_nil name) then err named_parameters else (more >>= λ values. ok (a ∷ values))

-- driverRows.ColumnTypePrecisionScale on a field
unfoldable pub precision_scale : Field → Option (ℕ × ℕ)
precision_scale f =
    if base_type f == type_packed || base_type f == type_zoned
    then some (f.precision, f.scale)
    else none

module _ (decode_text : ℕ → Bytes → Bytes) where
  -- BeginTx
  unfoldable pub driver_begin :
      Session → Bool → ℕ → Session × Result (DriverError DbError) (Unit {0})
  unfolding isolation_level begin_tx
  driver_begin s read_only_wanted isolation =
      if read_only_wanted then (s, err read_only) else elim (isolation_level isolation) [
        | none ↦ (s, err (unsupported_isolation isolation))
        | some level ↦
            let (s', r) = begin_tx decode_text s (pos level) in (s', wrap (map_bad is_broken) r)
      ]

  -- driverConn.Ping
  unfoldable pub driver_ping : Session → Session × Result (DriverError DbError) (Unit {0})
  unfolding ping
  driver_ping s = let (s', r) = ping decode_text s in (s', wrap (map_bad is_broken) r)

module _ (p : Platform) (o : Settings p) where
  -- PrepareContext
  unfoldable pub driver_prepare : World → Bytes → World × Result (DriverError StmtError) ℕ
  unfolding prepare
  driver_prepare w query =
      let (w', r) = prepare p o w query in (w', wrap (map_bad is_broken_stmt) r)

  abbrev pub behind :
      {A : Type 0}
      → World
      → Result (DriverError StmtError) (List (Option (Value p)))
      → (List (Option (Value p)) → Step A)
      → World × Result (DriverError StmtError) A
  behind w (ok values) f = let (w', r) = f values in (w', wrap (map_bad is_broken_stmt) r)
  behind w (err e) f = (w, err e)
  behind w panic f = (w, panic)
  behind w stuck f = (w, stuck)

  -- ExecContext and QueryContext
  unfoldable pub driver_exec :
      World → ℕ → List (Bytes × Option (Value p)) → World × Result (DriverError StmtError) ℤ
  unfolding positional exec
  driver_exec w i args = behind w (positional args) (exec p o w i)

  unfoldable pub driver_query :
      World → ℕ → List (Bytes × Option (Value p)) → World × Result (DriverError StmtError) ℕ
  unfolding positional query_values
  driver_query w i args = behind w (positional args) (query_values p o w i)
