-- ===== src/Database/Stmt/Direct.antt =====
-- database/stmt.go: the exported Exec and Query, which convert their arguments, those of Conn, which
-- prepare their statement and close it, and the types of columns.
-- driver.DefaultParameterConverter is the parameter `convert`: the driver.Value of an argument, none
-- for nil, or no value at all.
use jt400_go.Prelude.{ℕ, ◌+◌, Bool, true, Option, none, some, List, [], ◌∷◌, map}
use jt400_go.Prelude.Int.{ℤ}
use jt400_go.Go.{Result, ok, err, panic, stuck, ◌>>=◌, Bytes}
use jt400_go.Database.Format.{Field, base_type, nullable}
use jt400_go.Database.Value.{Platform, Value, type_name}
use jt400_go.Database.Stmt.{World, Settings, Step, StmtError, bad_argument, ◌and_then◌, set_cursor}
use jt400_go.Database.Stmt.Prepare.{prepare, stmt_close}
use jt400_go.Database.Stmt.Run.{exec, query_values, closed_with}

-- ColumnType
pub record ColumnType : Type 0 where
  pub name : Bytes
  pub type_text : Bytes
  pub may_be_null : Bool
  pub size : ℕ
  pub precision : ℕ
  pub scale : ℕ
  pub ccsid : ℕ

-- Rows.ColumnTypes on one column, and on all of them.
unfoldable pub column_type : Field → ColumnType
unfolding type_name
column_type f = record {
  name = f.name;
  type_text = type_name (base_type f);
  may_be_null = nullable f;
  size = f.size;
  precision = f.precision;
  scale = f.scale;
  ccsid = f.ccsid;
}

unfoldable pub column_types : World → ℕ → List ColumnType
unfolding column_type
column_types w r = map column_type (w.stmts (w.cursors r).st).columns

module _ (p : Platform) (o : Settings p) where
  -- Conn.Exec's last line.
  unfoldable pub closed_after : ℕ → Step ℤ → Step ℤ
  unfolding stmt_close closed_with
  closed_after i (w, ok n) = stmt_close p o w i and_then λ w' u. (w', ok n)
  closed_after i (w, err e) = closed_with p o e (stmt_close p o w i)
  closed_after i (w, panic) = (w, panic)
  closed_after i (w, stuck) = (w, stuck)

  -- Conn.Query behind Prepare.
  unfoldable pub opened : ℕ → Step ℕ → Step ℕ
  unfolding stmt_close closed_with
  opened i (w, ok r) = (set_cursor w r (record (w.cursors r) { close_stmt = true }), ok r)
  opened i (w, err e) = closed_with p o e (stmt_close p o w i)
  opened i (w, panic) = (w, panic)
  opened i (w, stuck) = (w, stuck)

  module _ {Arg : Type 0} (convert : Arg → Option (Option (Value p))) where
    -- convertArgs, from parameter number i on.
    unfoldable pub convert_args : ℕ → List Arg → Result StmtError (List (Option (Value p)))
    convert_args i [] = ok []
    convert_args i (a ∷ args) =
        let more = convert_args (i + 1) args in
        elim (convert a) [ none ↦ err (bad_argument i) | some v ↦ (more >>= λ vs. ok (v ∷ vs)) ]

    -- Stmt.Exec
    unfoldable pub stmt_exec : World → ℕ → List Arg → Step ℤ
    unfolding convert_args exec
    stmt_exec w i args = (w, convert_args 1 args) and_then λ w' values. exec p o w' i values

    -- Stmt.Query
    unfoldable pub stmt_query : World → ℕ → List Arg → Step ℕ
    unfolding convert_args query_values
    stmt_query w i args =
        (w, convert_args 1 args) and_then λ w' values. query_values p o w' i values

    -- Conn.Exec
    unfoldable pub conn_exec : World → Bytes → List Arg → Step ℤ
    unfolding prepare stmt_exec closed_after
    conn_exec w query args =
        prepare p o w query and_then λ w' i. closed_after i (stmt_exec w' i args)

    -- Conn.Query
    unfoldable pub conn_query : World → Bytes → List Arg → Step ℕ
    unfolding prepare stmt_query opened
    conn_query w query args = prepare p o w query and_then λ w' i. opened i (stmt_query w' i args)
