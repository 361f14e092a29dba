-- ===== src/Database/Stmt/Handles.antt =====
-- The handles of statements: Prepare takes one and keeps it only if it succeeds, and the end of a
-- statement gives its handle back.
use jt400_go.Prelude.{not, ℕ, ◌≡◌, refl, ap, ◌∙◌, true, false, Option, none, some, arith}
use jt400_go.Go.Outcome.{if-both}
use jt400_go.Go.{Result, ok, err, panic, stuck}
use jt400_go.Database.Ccsid.{decode_server_text}
use jt400_go.Database.Value.{Platform}
use jt400_go.Database.Conn.{DbError, usable, free_id, set_id}
use jt400_go.Database.Conn.Sends.{db_send-ids, db_call-ids}
use jt400_go.Database.Stmt.{reuse_no, World, Settings, Step, ◌and_then◌, go_on, if_usable, set_stmt}
use jt400_go.Database.Stmt.Cursor.{close_cursor, forget_rows, send_close, close_request}
use jt400_go.Database.Stmt.Prepare.{
  descriptor_request, rpb_delete_request, send_delete, call_delete, close_rows_of, close_rows,
  delete_descriptor, delete_rpb, released, release,
}

-- The handles in use are the same.
abbrev Same : World → World → Type 0
Same w w' = w'.session.ids ≡ w.session.ids

-- Steps in a row keep the handles.
and_then-Same :
    {A B : Type 0} (w : World) (t : Step A) (f : World → A → Step B)
    → Same w t.0
    → ((w' : World) (a : A) → Same w' (f w' a).0)
    → Same w (t and_then f).0
and_then-Same w (w', ok a) f h k = k w' a ∙ h
and_then-Same w (w', err e) f h k = h
and_then-Same w (w', panic) f h k = h
and_then-Same w (w', stuck) f h k = h

go_on-Same :
    (w : World) (t : Step (Unit {0})) (f : World → Step (Unit {0}))
    → Same w t.0
    → ((w' : World) → Same w' (f w').0)
    → Same w (go_on t f).0
unfolding go_on
go_on-Same w (w', ok u) f h k = k w' ∙ h
go_on-Same w (w', err e) f h k = k w' ∙ h
go_on-Same w (w', panic) f h k = h
go_on-Same w (w', stuck) f h k = h

if_usable-Same :
    (m : Result DbError (Unit {0})) (w : World) (f : World → Step (Unit {0}))
    → ((w' : World) → Same w' (f w').0)
    → Same w (if_usable m w f).0
unfolding if_usable
if_usable-Same (ok u) w f h = h w
if_usable-Same (err e) w f h = refl
if_usable-Same panic w f h = refl
if_usable-Same stuck w f h = refl

forget_rows-Same : (w : World) (r : ℕ) → Same w (forget_rows w r)
unfolding forget_rows
forget_rows-Same w r = ground arith

send_close-Same : (w : World) (r reuse : ℕ) → Same w (send_close w r reuse).0
unfolding send_close
send_close-Same w r reuse = db_send-ids w.session (close_request (w.stmts (w.cursors r).st) reuse)

pub close_cursor-Same : (w : World) (r reuse : ℕ) → Same w (close_cursor w r reuse).0
unfolding close_cursor
close_cursor-Same w r reuse =
    let w1 = forget_rows w r in
    let kept = forget_rows-Same w r in
    if-both (λ (t : Step (Unit {0})). Same w t.0) (not (w1.cursors r).cursor_open) (w1, ok tt)
      (if_usable (usable w1.session) w1 (λ w'. send_close w' r reuse)) kept
      (if_usable-Same (usable w1.session) w1 (λ w'. send_close w' r reuse)
          (λ w'. send_close-Same w' r reuse)
        ∙ kept)

pub close_rows_of-Same : (w : World) (r : Option ℕ) (reuse : ℕ) → Same w (close_rows_of w r reuse).0
unfolding close_rows_of
close_rows_of-Same w none reuse = refl
close_rows_of-Same w (some r) reuse = close_cursor-Same w r reuse

close_rows-Same : (w : World) (i reuse : ℕ) → Same w (close_rows w i reuse).0
unfolding close_rows
close_rows-Same w i reuse = close_rows_of-Same w (w.stmts i).rows reuse

send_delete-Same : (w : World) (i : ℕ) → Same w (send_delete w i).0
unfolding send_delete
send_delete-Same w i = db_send-ids w.session (descriptor_request (w.stmts i))

delete_descriptor-Same : (w : World) (i : ℕ) → Same w (delete_descriptor w i).0
unfolding delete_descriptor
delete_descriptor-Same w i =
    if-both (λ (t : Step (Unit {0})). Same w t.0) (w.stmts i).descriptor_sent (send_delete w i)
      (w, ok tt) (send_delete-Same w i) refl

module _ (p : Platform) (o : Settings p) where
  open o use {registry}

  call_delete-Same : (w : World) (i : ℕ) → Same w (call_delete p o w i).0
  unfolding call_delete
  call_delete-Same w i =
      db_call-ids (decode_server_text registry) w.session (rpb_delete_request (w.stmts i))

  delete_rpb-Same : (w : World) (i : ℕ) → Same w (delete_rpb p o w i).0
  unfolding delete_rpb
  delete_rpb-Same w i =
      and_then-Same w (call_delete p o w i) _ (call_delete-Same w i) (λ w' rep. refl)

  released-Same : (w : World) (i : ℕ) → Same w (released p o w i).0
  unfolding released
  released-Same w i = go_on-Same w (close_rows w i reuse_no) _ (close_rows-Same w i reuse_no) (λ w1.
      and_then-Same w1 (delete_descriptor w1 i) _ (delete_descriptor-Same w1 i)
        (λ w2 u. delete_rpb-Same w2 i))

  -- The handles behind Stmt.release: the statement's own is free, and the others are as before.
  pub release-ids :
      (w : World) (i : ℕ)
      → (release p o w i).0.session.ids ≡ set_id w.session.ids (w.stmts i).id false
  unfolding release free_id
  release-ids w i =
      let w1 = set_stmt w i (record (w.stmts i) { closed = true }) in
      let kept =
        if_usable-Same (usable w1.session) w1 (λ w'. released p o w' i)
          (λ w'. released-Same w' i) in
      ap (λ ids. set_id ids (w.stmts i).id false) kept
