-- ===== src/Database/Driver/Retry.antt =====
-- driver.ErrBadConn, which makes database/sql run a call again on a new connection, is given only
-- where nothing was sent: every other error of a step is another one.
pub mod Calls
pub mod Unsent
use jt400_go.Prelude.{
  ℕ, ◌≡◌, refl, sym, ap, ◌∙◌, Bool, true, false, not, ◌||◌, Option, none, some, List, ◌==◌, arith,
  if◌then◌else◌, length, Bool-cases, inl, inr,
}
use jt400_go.Prelude.Int.{ℤ}
use jt400_go.Go.{Result, ok, err, panic, stuck, ◌>>=◌, wrap, Bytes}
use jt400_go.Go.Outcome.{if-both}
use jt400_go.Go.Strings.{is_nil}
use jt400_go.As400.Conn.{ConnError, send}
use jt400_go.As400.Datastream.{Reply}
use jt400_go.Database.Ccsid.{decode_server_text}
use jt400_go.Database.Format.{encode_parameter_format}
use jt400_go.Database.Value.{Platform, Value}
use jt400_go.Database.Wire.{
  DbRequest, DbReply, ReplyError, add, failed, affected_rows, encode_request, parse_reply,
}
use jt400_go.Database.Conn.{
  Session, DbError, err_closed, err_conn_broken, usable, db_send, db_call, parsed, answered,
  server_error, op_execute, op_open_cursor, new_request,
}
use jt400_go.Database.Stmt.{
  World, Stmt, Settings, Step, StmtError, server, returns_rows, no_rows, wrong_arguments,
  ◌and_then◌, on_session, if_usable, set_stmt, stmt_usable, reuse_yes, fn_change_descriptor,
}
use jt400_go.Database.Stmt.Cursor.{close_cursor, forget_rows, send_close, close_request}
use jt400_go.Database.Stmt.Prepare.{close_rows, close_rows_of}
use jt400_go.Database.Stmt.Run.{bind, bind_values, send_descriptor, exec, query_values, has_columns}
use jt400_go.Database.Driver.{DriverError, bad_conn, other, is_broken, is_broken_stmt, map_bad}
use jt400_go.Database.Stmt.{set_cursor}
use jt400_go.Database.Driver.{[]}
use jt400_go.Database.Driver.{Field}
use jt400_go.Database.Conn.Calls.{db_call-answered}
use jt400_go.Database.Stmt.{bad_data}
use jt400_go.Database.Driver.{◌∷◌}
use jt400_go.Prelude.{◌+◌}
use jt400_go.Database.Data.{encode_parameter_data}
use jt400_go.Database.Stmt.{bad_parameter}
use jt400_go.Database.Value.Write.{encode_value}

-- A session that takes requests.
abbrev pub Live : Session → Type 0
Live s = (s.closed ≡ false) × (s.broken ≡ false)

-- What a request gives: a live session, or an error that is not ErrConnBroken.
abbrev pub CleanCall : {A : Type 0} → Session × Result DbError A → Type 0
CleanCall (s, ok a) = Live s
CleanCall (s, err e) = is_broken e ≡ false
CleanCall (s, panic) = Unit {0}
CleanCall (s, stuck) = Unit {0}

pub db_send-Clean : (s : Session) (req : DbRequest) → Live s → CleanCall (db_send s req)
unfolding db_send usable is_broken
db_send-Clean s req live = ground (arith, live)

parsed-Clean :
    (s : Session) (r : Result ReplyError DbReply) (decode_text : ℕ → Bytes → Bytes)
    → Live s
    → CleanCall (parsed decode_text s r)
unfolding parsed is_broken
parsed-Clean s (ok rep) decode_text live = live
parsed-Clean s (err e) decode_text live = refl
parsed-Clean s panic decode_text live = tt
parsed-Clean s stuck decode_text live = tt

answered-Clean :
    (s : Session) (r : Result ConnError (Option Reply)) (decode_text : ℕ → Bytes → Bytes)
    → Live s
    → CleanCall (answered decode_text s r)
unfolding answered is_broken
answered-Clean s (ok none) decode_text live = tt
answered-Clean s (ok (some reply)) decode_text live =
    parsed-Clean s (parse_reply decode_text reply) decode_text live
answered-Clean s (err e) decode_text live = refl
answered-Clean s panic decode_text live = tt
answered-Clean s stuck decode_text live = tt

pub db_call-Clean :
    (decode_text : ℕ → Bytes → Bytes) (s : Session) (req : DbRequest)
    → Live s
    → CleanCall (db_call decode_text s req)
db_call-Clean decode_text s req live =
    rw (db_call-answered decode_text s req live.0 live.1) (answered-Clean _ _ decode_text live)

-- The same of a step on a world.
abbrev pub Clean : {A : Type 0} → Step A → Type 0
Clean (w, ok a) = Live w.session
Clean (w, err e) = is_broken_stmt e ≡ false
Clean (w, panic) = Unit {0}
Clean (w, stuck) = Unit {0}

pub on_session-Clean :
    {A : Type 0} (w : World) (t : Session × Result DbError A) → CleanCall t → Clean (on_session w t)
unfolding is_broken_stmt
on_session-Clean w (s, ok a) h = h
on_session-Clean w (s, err e) h = h
on_session-Clean w (s, panic) h = tt
on_session-Clean w (s, stuck) h = tt

pub and_then-Clean :
    {A B : Type 0} (t : Step A) (f : World → A → Step B)
    → Clean t
    → ((w : World) (a : A) → Live w.session → Clean (f w a))
    → Clean (t and_then f)
and_then-Clean (w, ok a) f h k = k w a h
and_then-Clean (w, err e) f h k = h
and_then-Clean (w, panic) f h k = tt
and_then-Clean (w, stuck) f h k = tt

-- A result whose error is not ErrConnBroken.
abbrev pub Mild : {A : Type 0} → Result StmtError A → Type 0
Mild (ok a) = Unit {0}
Mild (err e) = is_broken_stmt e ≡ false
Mild panic = Unit {0}
Mild stuck = Unit {0}

pub Mild-Clean :
    {A : Type 0} (w : World) (r : Result StmtError A) → Live w.session → Mild r → Clean (w, r)
Mild-Clean w (ok a) live h = live
Mild-Clean w (err e) live h = h
Mild-Clean w panic live h = tt
Mild-Clean w stuck live h = tt

pub wrap-Mild :
    {E A : Type 0} (f : E → StmtError) (r : Result E A)
    → ((e : E) → is_broken_stmt (f e) ≡ false)
    → Mild (wrap f r)
wrap-Mild f (ok a) h = tt
wrap-Mild f (err e) h = h e
wrap-Mild f panic h = tt
wrap-Mild f stuck h = tt

pub >>=-Mild :
    {A B : Type 0} (m : Result StmtError A) (f : A → Result StmtError B)
    → Mild m
    → ((a : A) → Mild (f a))
    → Mild (m >>= f)
>>=-Mild (ok a) f h k = k a
>>=-Mild (err e) f h k = h
>>=-Mild panic f h k = tt
>>=-Mild stuck f h k = tt

if_usable-Clean :
    (m : Result DbError (Unit {0})) (w : World) (f : World → Step (Unit {0}))
    → Live w.session
    → Clean (f w)
    → Clean (if_usable m w f)
unfolding if_usable
if_usable-Clean (ok u) w f live h = h
if_usable-Clean (err e) w f live h = live
if_usable-Clean panic w f live h = tt
if_usable-Clean stuck w f live h = tt

forget_rows-Live : (w : World) (r : ℕ) → Live w.session → Live (forget_rows w r).session
unfolding forget_rows
forget_rows-Live w r live = ground (arith, live)

close_cursor-Clean : (w : World) (r reuse : ℕ) → Live w.session → Clean (close_cursor w r reuse)
unfolding close_cursor send_close
close_cursor-Clean w r reuse live =
    let w1 = forget_rows w r in
    let kept = forget_rows-Live w r live in
    let w2 = set_cursor w1 r (record (w1.cursors r) { cursor_open = false }) in
    let req = close_request (w2.stmts (w1.cursors r).st) reuse in
    if-both (λ (t : Step (Unit {0})). Clean t) (not (w1.cursors r).cursor_open) (w1, ok tt)
      (if_usable (usable w1.session) w1 (λ w'. send_close w' r reuse)) kept
      (if_usable-Clean (usable w1.session) w1 (λ w'. send_close w' r reuse) kept
        (on_session-Clean w2 (db_send w2.session req) (db_send-Clean w2.session req kept)))

close_rows_of-Clean :
    (w : World) (r : Option ℕ) (reuse : ℕ) → Live w.session → Clean (close_rows_of w r reuse)
unfolding close_rows_of
close_rows_of-Clean w none reuse live = live
close_rows_of-Clean w (some r) reuse live = close_cursor-Clean w r reuse live

pub close_rows-Clean : (w : World) (i reuse : ℕ) → Live w.session → Clean (close_rows w i reuse)
unfolding close_rows
close_rows-Clean w i reuse live = close_rows_of-Clean w (w.stmts i).rows reuse live

send_descriptor-Clean : (w : World) (i : ℕ) → Live w.session → Clean (send_descriptor w i)
unfolding send_descriptor
send_descriptor-Clean w i live =
    let st = w.stmts i in
    let req : DbRequest =
      add (record (new_request fn_change_descriptor 0) { rpb_id = st.id; pm_handle = st.id }) 0x381E
        (encode_parameter_format st.params) in
    let mark : World → Unit {0} → Step (Unit {0}) =
      λ w' u. (set_stmt w' i (record (w'.stmts i) { descriptor_sent = true }), ok tt) in
    let sent = on_session w (db_send w.session req) in
    if-both (λ (t : Step (Unit {0})). Clean t) st.descriptor_sent (w, ok tt) (sent and_then mark)
      live
      (and_then-Clean sent mark
        (on_session-Clean w (db_send w.session req) (db_send-Clean w.session req live))
        (λ w' u live'. live'))

module _ (p : Platform) (o : Settings p) where
  open o use {registry, location}

  bind_values-Mild :
      (i : ℕ) (fs : List Field) (args : List (Option (Value p))) → Mild (bind_values p o i fs args)
  unfolding bind_values is_broken_stmt
  bind_values-Mild i [] args = tt
  bind_values-Mild i (f ∷ fs) [] = tt
  bind_values-Mild i (f ∷ fs) (none ∷ args) =
      >>=-Mild (bind_values p o (i + 1) fs args) _ (bind_values-Mild (i + 1) fs args) (λ bs. tt)
  bind_values-Mild i (f ∷ fs) (some v ∷ args) =
      >>=-Mild (wrap (bad_parameter i) (encode_value p registry f v location)) _
        (wrap-Mild (bad_parameter i) (encode_value p registry f v location) (λ e. refl))
        (λ b.
          >>=-Mild (bind_values p o (i + 1) fs args) _ (bind_values-Mild (i + 1) fs args)
            (λ bs. tt))

  pub bind-Clean :
      (w : World) (i : ℕ) (args : List (Option (Value p)))
      → Live w.session
      → Clean (bind p o w i args)
  unfolding bind is_broken_stmt
  bind-Clean w i args live =
      let params = (w.stmts i).params in
      if-both (λ (t : Step Bytes). Clean t) (not (length args == length params))
        (w, err (wrong_arguments (length params) (length args))) _ refl
        (if-both (λ (t : Step Bytes). Clean t) (is_nil params) (w, ok []) _ live
          (and_then-Clean (w, bind_values p o 1 params args) _
            (Mild-Clean w (bind_values p o 1 params args) live (bind_values-Mild 1 params args))
            λ w1 values live1.
              and_then-Clean (send_descriptor w1 i) _ (send_descriptor-Clean w1 i live1)
                λ w2 u live2.
                  Mild-Clean w2 (wrap bad_data (encode_parameter_data params values)) live2
                    (wrap-Mild bad_data (encode_parameter_data params values) (λ e. refl))))
