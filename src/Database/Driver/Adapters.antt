-- ===== src/Database/Driver/Adapters.antt =====
-- database/driver.go: the connector, and the methods that pass a call on.
use jt400_go.Prelude.{ℕ, Bool, true, false, Option, none, some, List, get_elem?}
use jt400_go.Prelude.Int.{ℤ, pos, negsuc}
use jt400_go.Go.{Result, ok, err, panic, stuck, ◌>>=◌, wrap, Bytes}
use jt400_go.As400.Conn.{Env, CtxError}
use jt400_go.As400.Dial.{DialOptions, Network}
use jt400_go.Auth.Password.{Crypto}
use jt400_go.Database.Ccsid.{Registry}
use jt400_go.Database.Conn.{Session, DbError, close, commit, rollback}
use jt400_go.Database.Connect.{Options, ConnectError, Conn, connect}
use jt400_go.Database.Driver.{DriverError, map_bad, is_broken_stmt, driver_begin, precision_scale}
use jt400_go.Database.Driver.Dsn.{Connector, Parsers, DsnError, parse_dsn}
use jt400_go.Database.Format.{Field, base_type, nullable}
use jt400_go.Database.Stmt.{World, Settings, Step, StmtError}
use jt400_go.Database.Stmt.Cursor.{next_row}
use jt400_go.Database.Stmt.Prepare.{stmt_close}
use jt400_go.Database.Stmt.Run.{exec, query_values, close_rows_value, num_input, column_names}
use jt400_go.Database.Value.{Platform, Value, type_name}

-- A time.Duration as a timeout: 0 is none.
abbrev positive_part : ℤ → ℕ
positive_part (pos n) = n
positive_part (negsuc n) = 0

module _ {Location : Type 0} where
  -- The Dial and the Options of a Connector.
  abbrev pub dial_of : Connector Location → DialOptions
  dial_of c = record {
    host = c.host;
    port = c.port;
    tls = c.tls;
    timeout = c.timeout;
    io_timeout = positive_part c.io_timeout;
  }

  abbrev pub options_of : Connector Location → Options Location
  options_of c = record {
    system_naming = c.system_naming;
    default_schema = c.default_schema;
    location = c.location;
    block_size = c.block_size;
  }

pub data OpenError : Type 0 where
  context_over : CtxError → OpenError
  bad_dsn : DsnError → OpenError
  not_connected : ConnectError → OpenError

module _ {Location : Type 0} (utc : Location) (crypto : Crypto) (net : Network)
    (registry : Registry) (trim_space : Bytes → Bytes) (env1 env2 : Env) (env : ℕ → Env)
    (now : ℕ) where
  -- Connector.Connect on ctx.Err(): what was dialled, and the connection.
  unfoldable pub connector_connect :
      Option CtxError → Connector Location → Option Bool × Result OpenError (Conn Location)
  unfolding connect
  connector_connect (some e) c = (none, err (context_over e))
  connector_connect none c =
      let (closed, r) =
        connect utc crypto net registry trim_space env1 env2 env now (dial_of c) c.user_id
          c.password (options_of c) in
      (closed, wrap not_connected r)

  -- Driver.Open behind OpenConnector, which is ParseDSN.
  abbrev opened_with :
      Result DsnError (Connector Location) → Option Bool × Result OpenError (Conn Location)
  opened_with (ok c) = connector_connect none c
  opened_with (err e) = (none, err (bad_dsn e))
  opened_with panic = (none, panic)
  opened_with stuck = (none, stuck)

  -- Driver.Open
  unfoldable pub driver_open :
      Parsers Location → Bytes → Option Bool × Result OpenError (Conn Location)
  unfolding connector_connect parse_dsn
  driver_open parsers dsn = opened_with (parse_dsn parsers dsn)

-- driverConn.Close
unfoldable pub driver_close : Session → Session
unfolding close
driver_close s = close s

module _ (decode_text : ℕ → Bytes → Bytes) where
  -- driverConn.Begin: the zero TxOptions.
  unfoldable pub driver_begin_default : Session → Session × Result (DriverError DbError) (Unit {0})
  unfolding driver_begin
  driver_begin_default s = driver_begin decode_text s false 0

  -- driverTx.Commit and driverTx.Rollback
  unfoldable pub tx_commit : Session → Session × Result DbError (Unit {0})
  unfolding commit
  tx_commit s = commit decode_text s

  unfoldable pub tx_rollback : Session → Session × Result DbError (Unit {0})
  unfolding rollback
  tx_rollback s = rollback decode_text s

-- driverResult
pub data ResultError : Type 0 where
  no_last_insert_id : ResultError

unfoldable pub last_insert_id : ℤ → Result ResultError ℤ
last_insert_id rows_affected = err no_last_insert_id

unfoldable pub rows_affected_of : ℤ → Result ResultError ℤ
rows_affected_of rows_affected = ok rows_affected

module _ (p : Platform) (o : Settings p) where
  -- driverStmt.Close and NumInput
  unfoldable pub driver_stmt_close : World → ℕ → Step (Unit {0})
  unfolding stmt_close
  driver_stmt_close w i = stmt_close p o w i

  unfoldable pub driver_num_input : World → ℕ → ℕ
  unfolding num_input
  driver_num_input w i = num_input (w.stmts i)

  -- driverStmt.Exec and driverStmt.Query
  unfoldable pub driver_exec_values :
      World → ℕ → List (Option (Value p)) → World × Result (DriverError StmtError) ℤ
  unfolding exec
  driver_exec_values w i args =
      let (w', r) = exec p o w i args in (w', wrap (map_bad is_broken_stmt) r)

  unfoldable pub driver_query_values :
      World → ℕ → List (Option (Value p)) → World × Result (DriverError StmtError) ℕ
  unfolding query_values
  driver_query_values w i args =
      let (w', r) = query_values p o w i args in (w', wrap (map_bad is_broken_stmt) r)

  -- driverRows.Columns, Close and Next; the destination has n places.
  unfoldable pub driver_columns : World → ℕ → List Bytes
  unfolding column_names
  driver_columns w r = column_names w r

  unfoldable pub driver_rows_close : World → ℕ → Step (Unit {0})
  unfolding close_rows_value
  driver_rows_close w r = close_rows_value p o w r

  unfoldable pub driver_next : World → ℕ → ℕ → Step (List (Option (Value p)))
  unfolding next_row
  driver_next w r n = next_row p o w r n

-- r.r.st.columns[i]
unfoldable pub column_at : World → ℕ → ℕ → Result StmtError Field
column_at w r i = elim (get_elem? (w.stmts (w.cursors r).st).columns i) [
  | none ↦ panic
  | some f ↦ ok f
]

unfoldable pub column_type_name : World → ℕ → ℕ → Result StmtError Bytes
unfolding column_at type_name
column_type_name w r i = column_at w r i >>= λ f. ok (type_name (base_type f))

unfoldable pub column_nullable : World → ℕ → ℕ → Result StmtError (Bool × Bool)
unfolding column_at
column_nullable w r i = column_at w r i >>= λ f. ok (nullable f, true)

unfoldable pub column_precision_scale : World → ℕ → ℕ → Result StmtError (Option (ℕ × ℕ))
unfolding column_at precision_scale
column_precision_scale w r i = column_at w r i >>= λ f. ok (precision_scale f)
