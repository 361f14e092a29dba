-- ===== src/Database/Stmt/Run.antt =====
-- database/stmt.go: running a statement, and closing Rows.
use jt400_go.Prelude.{
  ℕ, ◌+◌, Bool, true, false, not, Option, none, some, List, [], ◌∷◌, ◌==◌, if◌then◌else◌, length,
  map,
}
use jt400_go.Prelude.Int.{ℤ}
use jt400_go.Go.{Result, ok, err, ◌>>=◌, wrap, Bytes}
use jt400_go.Go.Strings.{is_nil}
use jt400_go.Database.Format.{Field, encode_parameter_format}
use jt400_go.Database.Data.{encode_parameter_data}
use jt400_go.Database.Ccsid.{decode_server_text}
use jt400_go.Database.Value.{Platform, Value}
use jt400_go.Database.Value.Write.{encode_value}
use jt400_go.Database.Wire.{
  DbRequest, DbReply, add, add_byte, add_short, add_int, failed, affected_rows, ors_reply,
  ors_sqlca,
}
use jt400_go.Database.Conn.{db_send, db_call, new_request, server_error, op_execute, op_open_cursor}
use jt400_go.Database.Stmt.{
  World, Stmt, Settings, Step, StmtError, server, returns_rows, no_rows, wrong_arguments,
  bad_parameter, bad_data, bad_sqlca, ◌and_then◌, go_on, joined_with, on_session, set_stmt,
  set_cursor, stmt_usable, blocking_factor, fn_change_descriptor, fn_execute,
  fn_open_describe_fetch, ors_result_data, reuse_yes,
}
use jt400_go.Database.Stmt.Cursor.{close_cursor, absorb_end}
use jt400_go.Database.Stmt.Prepare.{close_rows, stmt_close}

-- Stmt.NumInput and Stmt.ReturnsRows
unfoldable pub num_input : Stmt → ℕ
num_input st = length st.params

unfoldable pub has_columns : Stmt → Bool
has_columns st = not (is_nil st.columns)

-- Rows.Columns
unfoldable pub column_names : World → ℕ → List Bytes
column_names w r = map (λ f. f.name) (w.stmts (w.cursors r).st).columns

-- Stmt.addExecuteParams
unfoldable pub add_execute_params : Stmt → DbRequest → Bytes → DbRequest
unfolding add_short add
add_execute_params st req data_row =
    let typed = add_short req 0x3812 st.stmt_type in
    if is_nil st.params then typed else add (record typed { pm_handle = st.id }) 0x381F data_row

-- The part of Stmt.bind that sends the descriptor, the first time.
unfoldable pub send_descriptor : World → ℕ → Step (Unit {0})
unfolding add db_send encode_parameter_format
send_descriptor w i =
    let st = w.stmts i in
    if st.descriptor_sent
    then (w, ok tt)
    else let req = record (new_request fn_change_descriptor 0) {
      rpb_id = st.id;
      pm_handle = st.id;
    } in
      (on_session w (db_send w.session (add req 0x381E (encode_parameter_format st.params)))
        and_then λ w' u. (set_stmt w' i (record (w'.stmts i) { descriptor_sent = true }), ok tt))

-- The request that runs the statement.
unfoldable pub execute_request : Stmt → Bytes → DbRequest
unfolding add_execute_params
execute_request st data_row =
    let req = record (new_request fn_execute (ors_reply + ors_sqlca)) { rpb_id = st.id } in
    add_execute_params st req data_row

module _ (p : Platform) (o : Settings p) where
  open o use {block_size, location, registry}

  -- The loop of Stmt.bind over the arguments, from number i on. There are as many as fields.
  unfoldable pub bind_values :
      ℕ → List Field → List (Option (Value p)) → Result StmtError (List (Option Bytes))
  bind_values i [] args = ok []
  bind_values i (f ∷ fs) [] = ok []
  bind_values i (f ∷ fs) (none ∷ args) = bind_values (i + 1) fs args >>= λ bs. ok (none ∷ bs)
  bind_values i (f ∷ fs) (some v ∷ args) =
      let more = bind_values (i + 1) fs args in
      wrap (bad_parameter i) (encode_value p registry f v location) >>= λ b.
      more >>= λ bs. ok (some b ∷ bs)

  -- Stmt.bind; nil data are the empty list.
  unfoldable pub bind : World → ℕ → List (Option (Value p)) → Step Bytes
  unfolding bind_values send_descriptor
  bind w i args =
      let params = (w.stmts i).params in
      if not (length args == length params)
      then (w, err (wrong_arguments (length params) (length args)))
      else if is_nil params
      then (w, ok [])
      else ((w, bind_values 1 params args) and_then λ w1 values.
          send_descriptor w1 i and_then λ w2 u.
          (w2, wrap bad_data (encode_parameter_data params values)))

  -- Stmt.exec on a usable statement
  unfoldable pub exec_on : World → ℕ → List (Option (Value p)) → Step ℤ
  unfolding close_rows bind execute_request db_call
  exec_on w i args =
      if has_columns (w.stmts i)
      then (w, err returns_rows)
      else (close_rows w i reuse_yes and_then λ w2 u. bind w2 i args and_then λ w3 data_row.
          on_session w3 (
            db_call (decode_server_text registry) w3.session
              (execute_request (w3.stmts i) data_row))
          and_then λ w4 rep.
              if failed rep
              then (w4, err (server (server_error op_execute rep)))
              else (w4, wrap bad_sqlca (affected_rows rep)))

  -- Stmt.exec
  unfoldable pub exec : World → ℕ → List (Option (Value p)) → Step ℤ
  unfolding stmt_usable exec_on
  exec w i args = stmt_usable w i and_then λ w1 u. exec_on w1 i args

  -- The new Rows of Stmt.queryValues.
  unfoldable pub open_rows : World → ℕ → DbReply → World × ℕ
  unfolding absorb_end
  open_rows w i rep =
      let r = w.cursor_count in
      let rs =
        absorb_end
          (record {
            st = i;
            block = rep.result_data;
            next = 0;
            eof = false;
            cursor_open = true;
            closed = false;
            close_stmt = false;
          })
          rep in
      let w1 = record (set_cursor w r rs) { cursor_count = r + 1 } in
      (set_stmt w1 i (record (w1.stmts i) { rows = some r }), r)

  -- The request that opens the cursor and fetches the first block.
  unfoldable pub open_request : Stmt → Bytes → DbRequest
  unfolding add_execute_params add_byte add_int add_short
  open_request st data_row =
      let req =
        record (new_request fn_open_describe_fetch (ors_reply + ors_sqlca + ors_result_data)) {
          rpb_id = st.id;
        } in
      let counted =
        add_int (add_byte req 0x3809 0x80) 0x380C (blocking_factor block_size st.columns) in
      add_execute_params st (add_short counted 0x380D 0) data_row

  -- Stmt.queryValues on a usable statement
  unfoldable pub query_on : World → ℕ → List (Option (Value p)) → Step ℕ
  unfolding close_rows bind open_request open_rows db_call
  query_on w i args =
      if not (has_columns (w.stmts i))
      then (w, err no_rows)
      else (close_rows w i reuse_yes and_then λ w2 u. bind w2 i args and_then λ w3 data_row.
          on_session w3
            (db_call (decode_server_text registry) w3.session (open_request (w3.stmts i) data_row))
          and_then λ w4 rep.
              if failed rep
              then (w4, err (server (server_error op_open_cursor rep)))
              else let (w5, r) = open_rows w4 i rep in (w5, ok r))

  -- Stmt.queryValues
  unfoldable pub query_values : World → ℕ → List (Option (Value p)) → Step ℕ
  unfolding stmt_usable query_on
  query_values w i args = stmt_usable w i and_then λ w1 u. query_on w1 i args

  -- Rows.Close
  unfoldable pub close_rows_value : World → ℕ → Step (Unit {0})
  unfolding close_cursor go_on stmt_close
  close_rows_value w r =
      let rs = w.cursors r in
      if rs.closed
      then (w, ok tt)
      else if rs.close_stmt
      then go_on (close_cursor w r reuse_yes) (λ w'. stmt_close p o w' rs.st)
      else close_cursor w r reuse_yes

  -- An error, joined with what Close of the statement gives.
  unfoldable pub closed_with : {A : Type 0} → StmtError → Step (Unit {0}) → Step A
  unfolding joined_with
  closed_with e (w, r) = (w, (joined_with e r >>= λ u. err e))
