-- ===== src/Database/Driver/Retry/Calls.antt =====
-- Prepare, Exec and Query of the driver: where they give driver.ErrBadConn, nothing was sent.
use jt400_go.Prelude.{ℕ, ◌≡◌, refl, false, not, Option, List, arith}
use jt400_go.Prelude.Int.{ℤ}
use jt400_go.Go.{Result, ok, err, panic, stuck, ◌>>=◌, wrap, Bytes}
use jt400_go.Go.Outcome.{if-both}
use jt400_go.Database.Ccsid.{decode_server_text, encode_string, client_ccsid}
use jt400_go.Database.Value.{Platform, Value}
use jt400_go.Database.Wire.{DbRequest, failed, affected_rows}
use jt400_go.Database.Conn.{db_send, db_call, server_error, op_execute, op_open_cursor, op_prepare}
use jt400_go.Database.Stmt.{
  World, Stmt, Settings, Step, StmtError, server, returns_rows, no_rows, bad_query, bad_sqlca,
  ◌and_then◌, on_session, set_stmt, reuse_yes,
}
use jt400_go.Database.Stmt.Prepare.{
  close_rows, rpb_request, or_free, release, or_release, dropped, describe, described, new_stmt,
  prepare_with, prepare_request,
}
use jt400_go.Database.Stmt.Run.{bind, has_columns, open_rows, open_request, execute_request}
use jt400_go.Database.Driver.{is_broken, is_broken_stmt}
use jt400_go.Database.Driver.Retry.{
  Live, Clean, Mild, on_session-Clean, and_then-Clean, Mild-Clean, wrap-Mild, close_rows-Clean,
  db_call-Clean, db_send-Clean, bind-Clean,
}
use jt400_go.Database.Stmt.Run.{query_on}
use jt400_go.Database.Stmt.Run.{exec_on}
use jt400_go.Database.Stmt.{add_name}
use jt400_go.Database.Driver.Retry.{>>=-Mild}
use jt400_go.Auth.Ebcdic.{EbcdicError}
use jt400_go.Database.Stmt.{bad_name}
use jt400_go.Database.Wire.{add_text}
use jt400_go.Database.Ccsid.{ccsid_ebcdic37}
use jt400_go.Auth.Ebcdic.{encode_ebcdic}

or_free-Clean : (id : ℕ) (t : Step (Unit {0})) → Clean t → Clean (or_free id t)
unfolding or_free
or_free-Clean id (w, ok u) h = h
or_free-Clean id (w, err e) h = h
or_free-Clean id (w, panic) h = tt
or_free-Clean id (w, stuck) h = tt

add_name-Mild : (req : DbRequest) (cp : ℕ) (name : Bytes) → Mild (add_name req cp name)
unfolding add_name is_broken_stmt
add_name-Mild req cp name = named (encode_ebcdic name)
  where
    named :
        (r : Result EbcdicError Bytes)
        → Mild (elim (wrap bad_name r) [
          | ok enc ↦ ok (add_text req cp ccsid_ebcdic37 enc)
          | err e ↦ err e
          | panic ↦ panic
          | stuck ↦ stuck
        ])
    named (ok enc) = tt
    named (err e) = refl
    named panic = tt
    named stuck = tt

rpb_request-Mild : (id : ℕ) → Mild (rpb_request id)
unfolding rpb_request
rpb_request-Mild id =
    >>=-Mild (add_name _ 0x3806 _) _ (add_name-Mild _ 0x3806 _) (λ req. add_name-Mild req 0x380B _)

module _ (p : Platform) (o : Settings p) where
  open o use {registry, vrm}

  prepare_request-Mild : (st : Stmt) (text : Bytes) → Mild (prepare_request p o st text)
  unfolding prepare_request is_broken_stmt
  prepare_request-Mild st text = ground arith

  pub exec_on-Clean :
      (w : World) (i : ℕ) (args : List (Option (Value p)))
      → Live w.session
      → Clean (exec_on p o w i args)
  unfolding exec_on is_broken_stmt is_broken
  exec_on-Clean w i args live =
      if-both (λ (t : Step ℤ). Clean t) (has_columns (w.stmts i)) (w, err returns_rows) _ refl
        (and_then-Clean (close_rows w i reuse_yes) _ (close_rows-Clean w i reuse_yes live)
          λ w2 u live2.
            and_then-Clean (bind p o w2 i args) _ (bind-Clean p o w2 i args live2) λ w3 row live3.
              let req = execute_request (w3.stmts i) row in
              and_then-Clean (on_session w3 (db_call (decode_server_text registry) w3.session req))
                _
                (on_session-Clean w3 (db_call (decode_server_text registry) w3.session req)
                  (db_call-Clean (decode_server_text registry) w3.session req live3))
                λ w4 rep live4.
                  if-both (λ (t : Step ℤ). Clean t) (failed rep)
                    (w4, err (server (server_error op_execute rep)))
                    (w4, wrap bad_sqlca (affected_rows rep)) refl
                    (Mild-Clean w4 (wrap bad_sqlca (affected_rows rep)) live4
                      (wrap-Mild bad_sqlca (affected_rows rep) (λ e. refl))))

  pub query_on-Clean :
      (w : World) (i : ℕ) (args : List (Option (Value p)))
      → Live w.session
      → Clean (query_on p o w i args)
  unfolding query_on is_broken_stmt is_broken open_rows
  query_on-Clean w i args live =
      if-both (λ (t : Step ℕ). Clean t) (not (has_columns (w.stmts i))) (w, err no_rows) _ refl
        (and_then-Clean (close_rows w i reuse_yes) _ (close_rows-Clean w i reuse_yes live)
          λ w2 u live2.
            and_then-Clean (bind p o w2 i args) _ (bind-Clean p o w2 i args live2) λ w3 row live3.
              let req = open_request p o (w3.stmts i) row in
              and_then-Clean (on_session w3 (db_call (decode_server_text registry) w3.session req))
                _
                (on_session-Clean w3 (db_call (decode_server_text registry) w3.session req)
                  (db_call-Clean (decode_server_text registry) w3.session req live3))
                λ w4 rep live4.
                  if-both (λ (t : Step ℕ). Clean t) (failed rep)
                    (w4, err (server (server_error op_open_cursor rep)))
                    ((open_rows p o w4 i rep).0, ok (open_rows p o w4 i rep).1) refl live4)

  describe-Clean :
      (w : World) (i : ℕ) (query : Bytes) → Live w.session → Clean (describe p o w i query)
  unfolding describe is_broken_stmt is_broken prepare_request
  describe-Clean w i query live =
      let text = wrap bad_query (encode_string registry client_ccsid query) in
      let m = text >>= prepare_request p o (w.stmts i) in
      and_then-Clean (w, m) _
        (Mild-Clean w m live (
          >>=-Mild text (prepare_request p o (w.stmts i))
            (wrap-Mild bad_query (encode_string registry client_ccsid query) (λ e. refl))
            (λ t. prepare_request-Mild (w.stmts i) t)))
        λ w1 req live1.
          and_then-Clean (on_session w1 (db_call (decode_server_text registry) w1.session req)) _
            (on_session-Clean w1 (db_call (decode_server_text registry) w1.session req)
              (db_call-Clean (decode_server_text registry) w1.session req live1))
            λ w2 rep live2.
              if-both (λ (t : Step (Unit {0})). Clean t) (failed rep)
                (w2, err (server (server_error op_prepare rep)))
                (set_stmt w2 i (described (w2.stmts i) rep), ok tt) refl live2

  dropped-Clean :
      (e : StmtError) (t : Step (Unit {0}))
      → is_broken_stmt e ≡ false
      → Clean (dropped p o {A = Unit {0}} e t)
  dropped-Clean e (w, ok u) h = h
  dropped-Clean e (w, err e') h = h
  dropped-Clean e (w, panic) h = tt
  dropped-Clean e (w, stuck) h = tt

  or_release-Clean : (i : ℕ) (t : Step (Unit {0})) → Clean t → Clean (or_release p o i t)
  unfolding or_release
  or_release-Clean i (w, ok a) h = h
  or_release-Clean i (w, err e) h = dropped-Clean e (release p o w i) h
  or_release-Clean i (w, panic) h = tt
  or_release-Clean i (w, stuck) h = tt

  pub prepare_with-Clean :
      (w : World) (id : ℕ) (query : Bytes) → Live w.session → Clean (prepare_with p o w id query)
  unfolding prepare_with
  prepare_with-Clean w id query live =
      let i = w.stmt_count in
      let w0 = new_stmt p o w id query in
      let named : Step DbRequest = (w0, rpb_request id) in
      let first = named and_then λ w1 req. on_session w1 (db_send w1.session req) in
      and_then-Clean (or_free id first) _
        (or_free-Clean id first (
          and_then-Clean named _ (Mild-Clean w0 (rpb_request id) live (rpb_request-Mild id))
            λ w1 req live1.
              on_session-Clean w1 (db_send w1.session req) (db_send-Clean w1.session req live1)))
        λ w2 u live2.
          and_then-Clean (or_release p o i (describe p o w2 i query)) _
            (or_release-Clean i (describe p o w2 i query) (describe-Clean w2 i query live2))
            (λ w3 u live3. live3)
