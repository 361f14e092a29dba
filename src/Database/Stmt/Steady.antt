-- ===== src/Database/Stmt/Steady.antt =====
-- What running a statement leaves: the handles in use, and each statement's own handle.
use jt400_go.Prelude.{
  ℕ, ◌≡◌, refl, ◌∙◌, true, not, Option, none, some, List, arith, ◌==◌, length, Bool, if◌then◌else◌,
}
use jt400_go.Go.{Result, ok, err, panic, stuck, Bytes}
use jt400_go.Go.Outcome.{if-both}
use jt400_go.Go.Strings.{is_nil}
use jt400_go.Database.Ccsid.{decode_server_text}
use jt400_go.Database.Value.{Platform, Value}
use jt400_go.Database.Wire.{failed, add, affected_rows}
use jt400_go.Database.Conn.{
  usable, DbError, new_request, db_send, op_execute, Operation, op_open_cursor, db_call,
  server_error,
}
use jt400_go.Database.Conn.Sends.{db_send-ids, db_call-ids}
use jt400_go.Database.Stmt.{
  World, Stmt, Settings, Step, ◌and_then◌, on_session, if_usable, set_stmt, stmt_usable, reuse_yes,
  DbRequest, fn_change_descriptor, returns_rows, StmtError, wrap, no_rows, DbReply, bad_sqlca,
  server,
}
use jt400_go.Database.Stmt.Cursor.{close_cursor, forget_rows, send_close}
use jt400_go.Database.Stmt.Prepare.{close_rows, close_rows_of}
use jt400_go.Database.Stmt.Run.{
  bind, bind_values, send_descriptor, exec, exec_on, has_columns, query_values, query_on,
  execute_request, open_rows, open_request,
}
use jt400_go.Database.Stmt.Handles.{close_rows_of-Same, close_cursor-Same}
use jt400_go.Database.Format.{encode_parameter_format}

module _ (i : ℕ) where
  -- The handles in use and the number of statements are the same, and statement i has its handle and is
  -- as closed as it was.
  abbrev pub Keeps : World → World → Type 0
  Keeps w w' =
      (w'.session.ids ≡ w.session.ids)
      × ((w'.stmts i).id ≡ (w.stmts i).id)
      × ((w'.stmts i).closed ≡ (w.stmts i).closed)
      × (w'.stmt_count ≡ w.stmt_count)

  pub Keeps-refl : (w : World) → Keeps w w
  Keeps-refl w = (refl, refl, refl, refl)

  pub Keeps-trans : (u v w : World) → Keeps u v → Keeps v w → Keeps u w
  Keeps-trans u v w h k = (k.0 ∙ h.0, k.1 ∙ h.1, k.2 ∙ h.2, k.3 ∙ h.3)

  pub and_then-Keeps :
      {A B : Type 0} (w : World) (t : Step A) (f : World → A → Step B)
      → Keeps w t.0
      → ((w' : World) (a : A) → Keeps w' (f w' a).0)
      → Keeps w (t and_then f).0
  and_then-Keeps w (w', ok a) f h k = Keeps-trans w w' (f w' a).0 h (k w' a)
  and_then-Keeps w (w', err e) f h k = h
  and_then-Keeps w (w', panic) f h k = h
  and_then-Keeps w (w', stuck) f h k = h

  -- The statements keep their handles and stay as closed as they were.
  abbrev SameStmt : World → World → Type 0
  SameStmt w w' =
      ((w'.stmts i).id ≡ (w.stmts i).id)
      × ((w'.stmts i).closed ≡ (w.stmts i).closed)
      × (w'.stmt_count ≡ w.stmt_count)

  forget_rows-SameStmt : (w : World) (r : ℕ) → SameStmt w (forget_rows w r)
  unfolding forget_rows
  forget_rows-SameStmt w r = ground arith

  if_usable-SameStmt :
      (m : Result DbError (Unit {0})) (w w' : World) (f : World → Step (Unit {0}))
      → SameStmt w w'
      → SameStmt w (f w').0
      → SameStmt w (if_usable m w' f).0
  unfolding if_usable
  if_usable-SameStmt (ok u) w w' f h k = k
  if_usable-SameStmt (err e) w w' f h k = h
  if_usable-SameStmt panic w w' f h k = h
  if_usable-SameStmt stuck w w' f h k = h

  close_cursor-SameStmt : (w : World) (r reuse : ℕ) → SameStmt w (close_cursor w r reuse).0
  unfolding close_cursor send_close
  close_cursor-SameStmt w r reuse =
      let w1 = forget_rows w r in
      let kept = forget_rows-SameStmt w r in
      if-both (λ (t : Step (Unit {0})). SameStmt w t.0) (not (w1.cursors r).cursor_open) (w1, ok tt)
        (if_usable (usable w1.session) w1 (λ w'. send_close w' r reuse)) kept
        (if_usable-SameStmt (usable w1.session) w w1 (λ w'. send_close w' r reuse) kept kept)

  close_rows_of-SameStmt :
      (w : World) (r : Option ℕ) (reuse : ℕ) → SameStmt w (close_rows_of w r reuse).0
  unfolding close_rows_of
  close_rows_of-SameStmt w none reuse = (refl, refl, refl)
  close_rows_of-SameStmt w (some r) reuse = close_cursor-SameStmt w r reuse

  pub close_cursor-Keeps : (w : World) (r reuse : ℕ) → Keeps w (close_cursor w r reuse).0
  close_cursor-Keeps w r reuse =
      let (same_id, same_closed, counted) = close_cursor-SameStmt w r reuse in
      (close_cursor-Same w r reuse, same_id, same_closed, counted)

  pub close_rows-Keeps : (w : World) (k reuse : ℕ) → Keeps w (close_rows w k reuse).0
  unfolding close_rows
  close_rows-Keeps w k reuse =
      let (same_id, same_closed, counted) = close_rows_of-SameStmt w (w.stmts k).rows reuse in
      (close_rows_of-Same w (w.stmts k).rows reuse, same_id, same_closed, counted)

  stmt_usable-Keeps : (w : World) (k : ℕ) → Keeps w (stmt_usable w k).0
  unfolding stmt_usable
  stmt_usable-Keeps w k =
      if-both (λ (t : Step (Unit {0})). Keeps w t.0) (w.stmts k).closed _ _ (Keeps-refl w)
        (Keeps-refl w)

  pub set_stmt-Keeps :
      (w : World) (k : ℕ) (st : Stmt)
      → st.id ≡ (w.stmts k).id
      → st.closed ≡ (w.stmts k).closed
      → Keeps w (set_stmt w k st)
  set_stmt-Keeps w k st same_id same_closed = (refl, ground arith, ground arith, refl)

  send_descriptor-Keeps : (w : World) (k : ℕ) → Keeps w (send_descriptor w k).0
  unfolding send_descriptor
  send_descriptor-Keeps w k =
      let st = w.stmts k in
      let req : DbRequest =
        add (record (new_request fn_change_descriptor 0) { rpb_id = st.id; pm_handle = st.id })
          0x381E (encode_parameter_format st.params) in
      let mark : World → Unit {0} → Step (Unit {0}) =
        λ w' u. (set_stmt w' k (record (w'.stmts k) { descriptor_sent = true }), ok tt) in
      let sent = on_session w (db_send w.session req) in
      if-both (λ (t : Step (Unit {0})). Keeps w t.0) st.descriptor_sent (w, ok tt)
        (sent and_then mark) (Keeps-refl w)
        (and_then-Keeps w sent mark (db_send-ids w.session req, refl, refl, refl)
          (λ w' u. set_stmt-Keeps w' k (record (w'.stmts k) { descriptor_sent = true }) refl refl))

  module _ (p : Platform) (o : Settings p) where
    open o use {registry}

    bind-Keeps :
        (w : World) (k : ℕ) (args : List (Option (Value p))) → Keeps w (bind p o w k args).0
    unfolding bind
    bind-Keeps w k args =
        let params = (w.stmts k).params in
        if-both (λ (t : Step Bytes). Keeps w t.0) (not (length args == length params)) _ _
          (Keeps-refl w)
          (if-both (λ (t : Step Bytes). Keeps w t.0) (is_nil params) _ _ (Keeps-refl w)
            (and_then-Keeps w (w, bind_values p o 1 params args) _ (Keeps-refl w)
              (λ w1 values.
                and_then-Keeps w1 (send_descriptor w1 k) _ (send_descriptor-Keeps w1 k)
                  (λ w2 u. Keeps-refl w2))))

    -- The steps that Stmt.exec and Stmt.queryValues share: the test, the open rows, the arguments, a
    -- request, and what its reply does to the world.
    run-Keeps :
        {A : Type 0} (w : World) (k : ℕ) (args : List (Option (Value p))) (refuse : World → Bool)
        (e : StmtError) (req : World → Bytes → DbRequest) (op : Operation)
        (take : World → DbReply → Step A)
        → ((w' : World) (rep : DbReply) → Keeps w' (take w' rep).0)
        → Keeps w
            (stmt_usable w k and_then λ w1 u.
              if refuse w1
              then (w1, err e)
              else (close_rows w1 k reuse_yes and_then λ w2 u2.
                  bind p o w2 k args and_then λ w3 row.
                  on_session w3 (db_call (decode_server_text registry) w3.session (req w3 row))
                  and_then λ w4 rep.
                      if failed rep
                      then (w4, err (server (server_error op rep)))
                      else take w4 rep)).0
    run-Keeps {A} w k args refuse e req op take h =
        and_then-Keeps w (stmt_usable w k) _ (stmt_usable-Keeps w k) λ w1 u.
          if-both (λ (t : Step A). Keeps w1 t.0) (refuse w1) _ _ (Keeps-refl w1)
            (and_then-Keeps w1 (close_rows w1 k reuse_yes) _ (close_rows-Keeps w1 k reuse_yes)
              λ w2 u2. and_then-Keeps w2 (bind p o w2 k args) _ (bind-Keeps w2 k args) λ w3 row.
                and_then-Keeps w3 (on_session w3 _) _
                  (
                    db_call-ids (decode_server_text registry) w3.session (req w3 row),
                    refl,
                    refl,
                    refl,
                  )
                  λ w4 rep.
                    if-both (λ (t : Step A). Keeps w4 t.0) (failed rep) _ _ (Keeps-refl w4)
                      (h w4 rep))

    -- Stmt.exec leaves the handles in use, and every statement with its handle and as closed as it was.
    pub exec-Keeps :
        (w : World) (k : ℕ) (args : List (Option (Value p))) → Keeps w (exec p o w k args).0
    unfolding exec exec_on
    exec-Keeps w k args =
        run-Keeps w k args (λ w1. has_columns (w1.stmts k)) returns_rows
          (λ w3 row. execute_request (w3.stmts k) row) op_execute
          (λ w4 rep. (w4, wrap bad_sqlca (affected_rows rep))) (λ w4 rep. Keeps-refl w4)

    -- Stmt.queryValues does too.
    pub query_values-Keeps :
        (w : World) (k : ℕ) (args : List (Option (Value p))) → Keeps w (query_values p o w k args).0
    unfolding query_values query_on open_rows
    query_values-Keeps w k args =
        run-Keeps w k args (λ w1. not (has_columns (w1.stmts k))) no_rows
          (λ w3 row. open_request p o (w3.stmts k) row) op_open_cursor
          (λ w4 rep. let (w5, r) = open_rows p o w4 k rep in (w5, ok r))
          (λ w4 rep.
            set_stmt-Keeps w4 k (record (w4.stmts k) { rows = some w4.cursor_count }) refl refl)
