-- ===== src/Database/Stmt/Next.antt =====
-- What Next leaves of the statements and their handles.
use jt400_go.Prelude.{ℕ, zero, suc, refl, Option, none, some, List, not, ◌==◌, length}
use jt400_go.Go.Outcome.{if-both}
use jt400_go.Database.Ccsid.{decode_server_text}
use jt400_go.Database.Format.{Field}
use jt400_go.Database.Data.{ResultData}
use jt400_go.Database.Value.{Platform, Value}
use jt400_go.Database.Wire.{DbReply, failed}
use jt400_go.Database.Conn.Sends.{db_call-ids}
use jt400_go.Database.Stmt.{World, Settings, Step, on_session}
use jt400_go.Database.Stmt.Cursor.{
  fetch, take_reply, advance, deliver_from, deliver_row, next_row, has_row,
}
use jt400_go.Database.Stmt.Steady.{Keeps, Keeps-refl, and_then-Keeps}

module _ (p : Platform) (o : Settings p) (j : ℕ) where
  open o use {registry}

  take_reply-Keeps :
      (w : World) (r : ℕ) (t : Step DbReply) → Keeps j w t.0 → Keeps j w (take_reply r t).0
  unfolding take_reply
  take_reply-Keeps w r t h = and_then-Keeps j w t _ h λ w' rep.
      if-both (λ (s : Step (Unit {0})). Keeps j w' s.0) (failed rep) _ _ (Keeps-refl j w')
        (Keeps-refl j w')

  fetch-Keeps : (w : World) (r : ℕ) → Keeps j w (fetch p o w r).0
  unfolding fetch
  fetch-Keeps w r =
      take_reply-Keeps w r (on_session w _)
        (db_call-ids (decode_server_text registry) w.session _, refl, refl, refl)

  advance-Keeps : (fuel : ℕ) (w : World) (r : ℕ) → Keeps j w (advance p o fuel w r).0
  unfolding advance
  advance-Keeps zero w r = Keeps-refl j w
  advance-Keeps (suc fuel) w r =
      let rs = w.cursors r in
      if-both (λ (t : Step (Unit {0})). Keeps j w t.0) (has_row rs.block rs.next) _ _
        (Keeps-refl j w)
        (if-both (λ (t : Step (Unit {0})). Keeps j w t.0) rs.eof _ _ (Keeps-refl j w)
          (and_then-Keeps j w (fetch p o w r) _ (fetch-Keeps w r)
            (λ w' u. advance-Keeps fuel w' r)))

  deliver_from-Keeps :
      (w : World) (r n : ℕ) (columns : List Field) (block : Option ResultData)
      → Keeps j w (deliver_from p o w r n columns block).0
  unfolding deliver_from
  deliver_from-Keeps w r n columns none = Keeps-refl j w
  deliver_from-Keeps w r n columns (some block) =
      if-both (λ (t : Step (List (Option (Value p)))). Keeps j w t.0) (not (n == length columns)) _
        _ (Keeps-refl j w)
        (if-both (λ (t : Step (List (Option (Value p)))). Keeps j w t.0)
          (not (block.column_count == length columns)) _ _ (Keeps-refl j w)
          (and_then-Keeps j w (w, _) _ (Keeps-refl j w) (λ w' values. Keeps-refl j w')))

  -- Next leaves the handles in use, and every statement with its handle and as closed as it was.
  pub next_row-Keeps : (w : World) (r n : ℕ) → Keeps j w (next_row p o w r n).0
  unfolding next_row deliver_row
  next_row-Keeps w r n =
      if-both (λ (t : Step (List (Option (Value p)))). Keeps j w t.0) (w.cursors r).closed _ _
        (Keeps-refl j w)
        (and_then-Keeps j w (advance p o 2 w r) _ (advance-Keeps 2 w r) (λ w' u.
          deliver_from-Keeps w' r n (w'.stmts (w'.cursors r).st).columns (w'.cursors r).block))
