-- ===== src/Database/Stmt/Prepare.antt =====
-- database/stmt.go: Prepare, and the end of a statement.
use jt400_go.Prelude.{
  ℕ, ◌+◌, true, false, Option, none, some, List, [], ltb, leb, if◌then◌else◌, length,
}
use jt400_go.Go.{Result, ok, err, panic, stuck, ◌>>=◌, wrap, Bytes}
use jt400_go.Go.Strings.{codes}
use jt400_go.Database.Format.{Field, DataFormat}
use jt400_go.Database.Ccsid.{encode_string, decode_server_text, client_ccsid}
use jt400_go.Database.Value.{Platform}
use jt400_go.Database.Wire.{
  DbRequest, DbReply, add_byte, add_short, add_text, add_long_text, failed, ors_reply, ors_sqlca,
}
use jt400_go.Database.Conn.{
  usable, db_send, db_call, alloc_id, new_request, server_error, op_prepare, op_close_statement,
}
use jt400_go.Database.Stmt.{
  World, Stmt, Settings, Step, StmtError, server, bad_query, text_too_long, ◌and_then◌, go_on,
  on_session, if_usable, set_stmt, release_id, add_name, object_name, fn_create_rpb, fn_delete_rpb,
  fn_delete_descriptor, fn_prepare_describe, ors_data_format, ors_parameter_marker_format, reuse_no,
  vrm_v5r4,
}
use jt400_go.Database.Stmt.Cursor.{close_cursor}
use jt400_go.Database.Stmt.Keyword.{statement_type}

-- The request that names the statement and its cursor.
unfoldable pub rpb_request : ℕ → Result StmtError DbRequest
unfolding add_name object_name
rpb_request id =
    add_name (record (new_request fn_create_rpb 0) { rpb_id = id }) 0x3806
      (object_name (codes "STMT") id)
    >>= λ req. add_name req 0x380B (object_name (codes "CRSR") id)

-- An error frees the handle.
unfoldable pub or_free : {A : Type 0} → ℕ → Step A → Step A
or_free id (w, err e) = (release_id w id, err e)
or_free id (w, r) = (w, r)

-- The descriptor's part of Stmt.release.
abbrev pub descriptor_request : Stmt → DbRequest
descriptor_request st = record (new_request fn_delete_descriptor 0) {
  rpb_id = st.id;
  pm_handle = st.id;
}

unfoldable pub send_delete : World → ℕ → Step (Unit {0})
unfolding db_send
send_delete w i = on_session w (db_send w.session (descriptor_request (w.stmts i)))

unfoldable pub delete_descriptor : World → ℕ → Step (Unit {0})
unfolding send_delete
delete_descriptor w i = if (w.stmts i).descriptor_sent then send_delete w i else (w, ok tt)

-- Stmt.closeRows, on st.rows.
unfoldable pub close_rows_of : World → Option ℕ → ℕ → Step (Unit {0})
unfolding close_cursor
close_rows_of w none reuse = (w, ok tt)
close_rows_of w (some r) reuse = close_cursor w r reuse

unfoldable pub close_rows : World → ℕ → ℕ → Step (Unit {0})
unfolding close_rows_of
close_rows w i reuse = close_rows_of w (w.stmts i).rows reuse

abbrev fields_of : Option DataFormat → List Field
fields_of none = []
fields_of (some format) = format.fields

-- st.columns and st.params from the reply. `old` are the params of the new statement: nil.
abbrev pub described : Stmt → DbReply → Stmt
described st rep = record st {
  columns = fields_of rep.data_format;
  params = fields_of rep.param_format;
}

abbrev pub rpb_delete_request : Stmt → DbRequest
rpb_delete_request st = record (new_request fn_delete_rpb ors_reply) { rpb_id = st.id }

module _ (p : Platform) (o : Settings p) where
  open o use {vrm, registry}

  -- The last request of Stmt.release, and what its reply means.
  unfoldable pub call_delete : World → ℕ → Step DbReply
  unfolding db_call
  call_delete w i =
      on_session w
        (db_call (decode_server_text registry) w.session (rpb_delete_request (w.stmts i)))

  unfoldable pub delete_rpb : World → ℕ → Step (Unit {0})
  unfolding call_delete
  delete_rpb w i = call_delete w i and_then λ w' rep.
      (w', if failed rep then err (server (server_error op_close_statement rep)) else ok tt)

  -- Stmt.release up to its deferred freeID, on a usable connection.
  unfoldable pub released : World → ℕ → Step (Unit {0})
  unfolding close_rows go_on delete_descriptor delete_rpb
  released w i =
      go_on (close_rows w i reuse_no)
        (λ w1. delete_descriptor w1 i and_then λ w2 u. delete_rpb w2 i)

  -- Stmt.release
  unfoldable pub release : World → ℕ → Step (Unit {0})
  unfolding released if_usable usable
  release w i =
      let st = w.stmts i in
      let w1 = set_stmt w i (record st { closed = true }) in
      let (w2, r) = if_usable (usable w1.session) w1 (λ w'. released w' i) in
      (release_id w2 st.id, r)

  -- Stmt.Close
  unfoldable pub stmt_close : World → ℕ → Step (Unit {0})
  unfolding release
  stmt_close w i = if (w.stmts i).closed then (w, ok tt) else release w i

  -- An error releases the statement; what release says of that is dropped.
  abbrev pub dropped : {A : Type 0} → StmtError → Step (Unit {0}) → Step A
  dropped e (w, ok u) = (w, err e)
  dropped e (w, err e') = (w, err e)
  dropped e (w, panic) = (w, panic)
  dropped e (w, stuck) = (w, stuck)

  unfoldable pub or_release : {A : Type 0} → ℕ → Step A → Step A
  unfolding release
  or_release i (w, err e) = dropped e (release w i)
  or_release i (w, r) = (w, r)

  -- The request of Prepare that carries the text.
  unfoldable pub prepare_request : Stmt → Bytes → Result StmtError DbRequest
  unfolding add_long_text add_text add_short add_byte
  prepare_request st text =
      let req =
        record (new_request fn_prepare_describe
          (ors_reply + ors_data_format + ors_sqlca + ors_parameter_marker_format)) {
            rpb_id = st.id;
          } in
      (if leb vrm_v5r4 vrm
        then ok (add_long_text req 0x3831 client_ccsid text)
        else if ltb 0xFFFF (length text)
        then err (text_too_long (length text))
        else ok (add_text req 0x3807 client_ccsid text))
      >>= λ named. ok (add_byte (add_short named 0x3812 st.stmt_type) 0x3808 0)

  -- Prepare from its text on, without the releases.
  unfoldable pub describe : World → ℕ → Bytes → Step (Unit {0})
  unfolding prepare_request db_call
  describe w i query =
      (
        w,
        (wrap bad_query (encode_string registry client_ccsid query)
            >>= prepare_request (w.stmts i)),
      )
      and_then λ w1 req.
          on_session w1 (db_call (decode_server_text registry) w1.session req) and_then λ w2 rep.
          if failed rep
          then (w2, err (server (server_error op_prepare rep)))
          else (set_stmt w2 i (described (w2.stmts i) rep), ok tt)

  -- A Stmt as Prepare makes it.
  abbrev pub new_stmt : World → ℕ → Bytes → World
  new_stmt w id query =
      record (set_stmt w w.stmt_count (record {
        id = id;
        stmt_type = statement_type o query;
        columns = [];
        params = [];
        descriptor_sent = false;
        rows = none;
        closed = false;
      })) { stmt_count = w.stmt_count + 1 }

  -- Prepare behind allocID.
  unfoldable pub prepare_with : World → ℕ → Bytes → Step ℕ
  unfolding rpb_request or_free describe or_release statement_type
  prepare_with w id query =
      let i = w.stmt_count in
      or_free id (
        (new_stmt w id query, rpb_request id) and_then λ w1 req.
        on_session w1 (db_send w1.session req))
      and_then λ w2 u. or_release i (describe w2 i query) and_then λ w3 u. (w3, ok i)

  -- Prepare
  unfoldable pub prepare : World → Bytes → Step ℕ
  unfolding prepare_with usable alloc_id
  prepare w query = (w, wrap server (usable w.session)) and_then λ w1 u.
      on_session w1 (alloc_id w1.session) and_then λ w2 id. prepare_with w2 id query
