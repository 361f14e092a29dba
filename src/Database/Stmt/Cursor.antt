-- ===== src/Database/Stmt/Cursor.antt =====
-- database/stmt.go: the methods of Rows.
use jt400_go.Prelude.{
  ℕ, zero, suc, ◌+◌, Bool, true, false, not, ◌||◌, Option, none, some, List, [], ◌∷◌, ltb, ◌==◌,
  if◌then◌else◌, length,
}
use jt400_go.Prelude.Int.{ℤ, pos, negsuc}
use jt400_go.Go.{Result, ok, err, stuck, ◌>>=◌, wrap, Bytes, slice}
use jt400_go.Database.Format.{Field}
use jt400_go.Database.Data.{ResultData, row, indicator}
use jt400_go.Database.Ccsid.{decode_server_text}
use jt400_go.Database.Value.{Platform, Value}
use jt400_go.Database.Value.Read.{decode_value}
use jt400_go.Database.Wire.{
  DbRequest, DbReply, add_byte, add_short, add_int, failed, end_of_data, cursor_closed_by_server,
  ors_reply,
}
use jt400_go.Database.Conn.{
  usable, db_send, db_call, new_request, server_error, op_fetch, err_closed,
}
use jt400_go.Database.Stmt.{
  World, Stmt, Rows, Settings, Step, StmtError, server, end_of_rows, bad_column, wrong_destination,
  wrong_columns, row_too_short, mapping_error, bad_data, ◌and_then◌, on_session, if_usable,
  set_stmt, set_cursor, blocking_factor, fn_close, fn_fetch, ors_result_data,
}

-- `r.st.rows == r`, on the pointer that may be nil
abbrev pub points_to : Option ℕ → ℕ → Bool
points_to none r = false
points_to (some i) r = i == r

-- The first lines of Rows.close: the Rows is closed, and its statement forgets it.
unfoldable pub forget_rows : World → ℕ → World
forget_rows w r =
    let rs = w.cursors r in
    let st = w.stmts rs.st in
    let w' = set_cursor w r (record rs { closed = true }) in
    if points_to st.rows r then set_stmt w' rs.st (record st { rows = none }) else w'

-- The request of Rows.close, and its place there.
abbrev pub close_request : Stmt → ℕ → DbRequest
close_request st reuse = add_byte (record (new_request fn_close 0) { rpb_id = st.id }) 0x3810 reuse

unfoldable pub send_close : World → ℕ → ℕ → Step (Unit {0})
unfolding db_send
send_close w r reuse =
    let rs = w.cursors r in
    let w' = set_cursor w r (record rs { cursor_open = false }) in
    on_session w' (db_send w'.session (close_request (w'.stmts rs.st) reuse))

-- Rows.close
unfoldable pub close_cursor : World → ℕ → ℕ → Step (Unit {0})
unfolding forget_rows if_usable usable send_close
close_cursor w r reuse =
    let w1 = forget_rows w r in
    if not (w1.cursors r).cursor_open
    then (w1, ok tt)
    else if_usable (usable w1.session) w1 (λ w'. send_close w' r reuse)

-- Rows.absorbEnd
unfoldable pub absorb_end : Rows → DbReply → Rows
absorb_end rs rep = record rs {
  eof = rs.eof || end_of_data rep;
  cursor_open = if cursor_closed_by_server rep then false else rs.cursor_open;
}

-- r.block != nil && r.next < r.block.rowCount
abbrev pub has_row : Option ResultData → ℕ → Bool
has_row none next = false
has_row (some block) next = ltb next block.row_count

-- What fetch does with a reply that has not failed: a block without rows counts as the last one.
unfoldable pub fetched : Rows → DbReply → Rows
unfolding absorb_end
fetched rs rep =
    let rs' = absorb_end (record rs { block = rep.result_data; next = 0 }) rep in
    record rs' { eof = rs'.eof || not (has_row rep.result_data 0) }

-- fetch from its reply on
unfoldable pub take_reply : ℕ → Step DbReply → Step (Unit {0})
unfolding fetched
take_reply r answer = answer and_then λ w rep.
    if failed rep
    then (w, err (server (server_error op_fetch rep)))
    else (set_cursor w r (fetched (w.cursors r) rep), ok tt)

module _ (p : Platform) (o : Settings p) where
  open o use {block_size, location, registry}

  -- Rows.fetch
  unfoldable pub fetch : World → ℕ → Step (Unit {0})
  unfolding take_reply add_short add_int db_call
  fetch w r =
      let rs = w.cursors r in
      let st = w.stmts rs.st in
      let req = record (new_request fn_fetch (ors_reply + ors_result_data)) { rpb_id = st.id } in
      let sent = add_int (add_short req 0x380E 0) 0x380C (blocking_factor block_size st.columns) in
      take_reply r (on_session w (db_call (decode_server_text registry) w.session sent))

  -- The loop of Next, on fuel: until a row is there.
  unfoldable pub advance : ℕ → World → ℕ → Step (Unit {0})
  unfolding fetch
  advance zero w r = (w, stuck)
  advance (suc fuel) w r =
      let rs = w.cursors r in
      if has_row rs.block rs.next
      then (w, ok tt)
      else if rs.eof
      then (w, err end_of_rows)
      else (fetch w r and_then λ w' u. advance fuel w' r)

  -- One column, by its indicator.
  unfoldable pub read_column : ℕ → Field → ℤ → Bytes → Result StmtError (Option (Value p))
  read_column i f (negsuc zero) cell = ok none
  read_column i f (negsuc (suc n)) cell = err (mapping_error (i + 1))
  read_column i f (pos n) cell =
      wrap (bad_column (i + 1)) (decode_value p registry f cell location) >>= λ v. ok (some v)

  -- The loop of Next over the columns, from column i on, whose field starts at `off` of the row.
  unfoldable pub read_columns :
      ResultData → ℕ → Bytes → ℕ → ℕ → List Field → Result StmtError (List (Option (Value p)))
  unfolding read_column
  read_columns block next data_row i off [] = ok []
  read_columns block next data_row i off (f ∷ fs) =
      let more = read_columns block next data_row (i + 1) (off + f.size) fs in
      if ltb (length data_row) (off + f.size)
      then err (row_too_short (i + 1))
      else (wrap bad_data (indicator block next i) >>= λ ind.
          slice data_row off (off + f.size) >>= λ cell.
          read_column i f ind cell >>= λ v. more >>= λ vs. ok (v ∷ vs))

  -- Next from its loop on, for the columns of the statement, the block, and a `dest` of n elements; the
  -- values are those of dest on success.
  unfoldable pub deliver_from :
      World → ℕ → ℕ → List Field → Option ResultData → Step (List (Option (Value p)))
  unfolding read_columns
  deliver_from w r n columns none = (w, Result.panic)
  deliver_from w r n columns (some block) =
      let rs = w.cursors r in
      if not (n == length columns)
      then (w, err (wrong_destination (length columns) n))
      else if not (block.column_count == length columns)
      then (w, err (wrong_columns block.column_count (length columns)))
      else ((
        w,
        (wrap bad_data (row block rs.next) >>= λ b. read_columns block rs.next b 0 0 columns),
      )
          and_then λ w' values. (set_cursor w' r (record rs { next = rs.next + 1 }), ok values))

  unfoldable pub deliver_row : World → ℕ → ℕ → Step (List (Option (Value p)))
  unfolding deliver_from
  deliver_row w r n = let rs = w.cursors r in deliver_from w r n (w.stmts rs.st).columns rs.block

  -- Rows.Next
  unfoldable pub next_row : World → ℕ → ℕ → Step (List (Option (Value p)))
  unfolding advance deliver_row
  next_row w r n =
      if (w.cursors r).closed
      then (w, err (server err_closed))
      else (advance 2 w r and_then λ w' u. deliver_row w' r n)
