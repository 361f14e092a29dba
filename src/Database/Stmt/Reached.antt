-- ===== src/Database/Stmt/Reached.antt =====
-- A program on one connection: the calls that it makes, and the statements that it holds meanwhile.
use jt400_go.Prelude.{
  ℕ, ◌≡◌, refl, sym, ◌∙◌, true, false, Bool, Bool-cases, ◌==◌, arith, inl, inr, Option, List,
}
use jt400_go.Go.{ok, err, returns, Bytes}
use jt400_go.Database.Value.{Platform, Value}
use jt400_go.Database.Conn.{Session, set_id}
use jt400_go.Database.Stmt.{World, Settings, StmtError}
use jt400_go.Database.Stmt.Cursor.{next_row}
use jt400_go.Database.Stmt.Prepare.{prepare, stmt_close}
use jt400_go.Database.Stmt.Run.{close_rows_value}
use jt400_go.Database.Stmt.Direct.{
  stmt_exec, stmt_query, conn_exec, conn_query, closed_after, opened,
}
use jt400_go.Database.Stmt.Balance.{stmt_exec-Keeps, stmt_query-Keeps}
use jt400_go.Database.Stmt.Next.{next_row-Keeps}
use jt400_go.Database.Stmt.Owned.{Owned}
use jt400_go.Database.Stmt.Owning.{
  keeping-Owned, stmt_close-Owned, close_rows_value-Owned, unprepared-Owned, prepared-Owned,
  closed_after-Owned, opened-Owned, prepare_then-Owned, prepare_kept-Owned,
}

module _ (p : Platform) (o : Settings p) where
  module _ {Arg : Type 0} (convert : Arg → Option (Option (Value p))) where
    -- The world behind calls of a program on one connection, and the statements that it holds: those
    -- that Prepare and Conn.Query made for it. It starts without handles in use, calls only methods of
    -- statements that it holds and of Rows of such statements, and goes on behind Prepare, Conn.Exec
    -- and Conn.Query only if they come back. `moved` is any call of the connection itself that leaves
    -- the handles in use, such as the requests of a transaction.
    pub data Reached : World → (ℕ → Bool) → Type 0 where
      start : {w : World} → ((k : ℕ) → w.session.ids k ≡ false) → Reached w (λ i. false)
      moved :
          {w : World} {held : ℕ → Bool} (s : Session)
          → Reached w held
          → s.ids ≡ w.session.ids
          → Reached (record w { session = s }) held
      prepared :
          {w : World} {held : ℕ → Bool} (query : Bytes) (i : ℕ)
          → Reached w held
          → (prepare p o w query).1 ≡ ok i
          → Reached (prepare p o w query).0 (set_id held i true)
      unprepared :
          {w : World} {held : ℕ → Bool} (query : Bytes) (e : StmtError)
          → Reached w held
          → (prepare p o w query).1 ≡ err e
          → Reached (prepare p o w query).0 held
      executed :
          {w : World} {held : ℕ → Bool} (i : ℕ) (args : List Arg)
          → Reached w held
          → held i ≡ true
          → Reached (stmt_exec p o convert w i args).0 held
      queried :
          {w : World} {held : ℕ → Bool} (i : ℕ) (args : List Arg)
          → Reached w held
          → held i ≡ true
          → Reached (stmt_query p o convert w i args).0 held
      read :
          {w : World} {held : ℕ → Bool} (r n : ℕ)
          → Reached w held
          → held (w.cursors r).st ≡ true
          → Reached (next_row p o w r n).0 held
      rows_closed :
          {w : World} {held : ℕ → Bool} (r : ℕ)
          → Reached w held
          → held (w.cursors r).st ≡ true
          → Reached (close_rows_value p o w r).0 held
      stmt_closed :
          {w : World} {held : ℕ → Bool} (i : ℕ)
          → Reached w held
          → held i ≡ true
          → Reached (stmt_close p o w i).0 held
      conn_executed :
          {w : World} {held : ℕ → Bool} (query : Bytes) (args : List Arg)
          → Reached w held
          → returns (conn_exec p o convert w query args).1 ≡ true
          → Reached (conn_exec p o convert w query args).0 held
      conn_queried :
          {w : World} {held : ℕ → Bool} (query : Bytes) (args : List Arg) (r : ℕ)
          → Reached w held
          → (conn_query p o convert w query args).1 ≡ ok r
          → Reached (conn_query p o convert w query args).0 (set_id held w.stmt_count true)
      conn_refused :
          {w : World} {held : ℕ → Bool} (query : Bytes) (args : List Arg)
          → Reached w held
          → returns (conn_query p o convert w query args).1 ≡ true
          → Reached (conn_query p o convert w query args).0 held

    executed-Owned :
        (args : List Arg) (w : World) (held : ℕ → Bool) (i : ℕ)
        → held i ≡ true
        → Owned w held
        → Owned (closed_after p o i (stmt_exec p o convert w i args)).0 held
    executed-Owned args w held i mine owned =
        let run = stmt_exec p o convert w i args in
        closed_after-Owned p o held i run mine
          (keeping-Owned w run.0 held (λ j. stmt_exec-Keeps p o convert j i w args) owned)

    queried-Owned :
        (args : List Arg) (w : World) (held : ℕ → Bool) (i : ℕ)
        → held i ≡ true
        → Owned w held
        → Owned (opened p o i (stmt_query p o convert w i args)).0 held
    queried-Owned args w held i mine owned =
        let run = stmt_query p o convert w i args in
        opened-Owned p o held i run mine
          (keeping-Owned w run.0 held (λ j. stmt_query-Keeps p o convert j i w args) owned)

    Reached-Owned : (w : World) (held : ℕ → Bool) → Reached w held → Owned w held
    unfolding conn_exec conn_query
    Reached-Owned w held (start none_used) = (λ i h. cc, λ i h. cc, λ i j h. cc)
    Reached-Owned _ _ (moved {w} {held} s before same) =
        keeping-Owned w (record w { session = s }) held (λ j. (same, refl, refl, refl))
          (Reached-Owned w held before)
    Reached-Owned _ _ (prepared {w} {held} query i before made) =
        prepared-Owned p o w held query i made (Reached-Owned w held before)
    Reached-Owned _ _ (unprepared {w} {held} query e before failed) =
        unprepared-Owned p o w held query e failed (Reached-Owned w held before)
    Reached-Owned _ _ (executed {w} {held} i args before mine) =
        keeping-Owned w (stmt_exec p o convert w i args).0 held
          (λ j. stmt_exec-Keeps p o convert j i w args) (Reached-Owned w held before)
    Reached-Owned _ _ (queried {w} {held} i args before mine) =
        keeping-Owned w (stmt_query p o convert w i args).0 held
          (λ j. stmt_query-Keeps p o convert j i w args) (Reached-Owned w held before)
    Reached-Owned _ _ (read {w} {held} r n before mine) =
        keeping-Owned w (next_row p o w r n).0 held (λ j. next_row-Keeps p o j w r n)
          (Reached-Owned w held before)
    Reached-Owned _ _ (rows_closed {w} {held} r before mine) =
        close_rows_value-Owned p o w held r mine (Reached-Owned w held before)
    Reached-Owned _ _ (stmt_closed {w} {held} i before mine) =
        stmt_close-Owned p o w held i mine (Reached-Owned w held before)
    Reached-Owned _ _ (conn_executed {w} {held} query args before back) =
        prepare_then-Owned p o w held query _ (Reached-Owned w held before)
          (λ w' more i mine owned. executed-Owned args w' more i mine owned) back
    Reached-Owned _ _ (conn_queried {w} {held} query args r before h) =
        prepare_kept-Owned p o w held query _ (Reached-Owned w held before)
          (λ w' more i mine owned. queried-Owned args w' more i mine owned) r h
    Reached-Owned _ _ (conn_refused {w} {held} query args before back) =
        prepare_then-Owned p o w held query _ (Reached-Owned w held before)
          (λ w' more i mine owned. queried-Owned args w' more i mine owned) back

    -- A statement that is held and open has its handle in use, and two of them share a handle only if
    -- they are the same, behind any calls that a program makes.
    pub Reached-ids :
        (w : World) (held : ℕ → Bool) (i j : ℕ)
        → Reached w held
        → held i ≡ true
        → held j ≡ true
        → (w.stmts i).closed ≡ false
        → (w.stmts j).closed ≡ false
        → (w.session.ids (w.stmts i).id ≡ true) × (((w.stmts i).id == (w.stmts j).id) ≡ (i == j))
    Reached-ids w held i j reached mine mine' live live' =
        let owned = Reached-Owned w held reached in
        (
          owned.1 i mine live,
          elim (Bool-cases (i == j)) [
            | inl e ↦ ground (arith, e)
            | inr e ↦ elim (Bool-cases ((w.stmts i).id == (w.stmts j).id)) [
              | inl f ↦
                  let same = owned.2 i j mine mine' live live' (ground (arith, f)) in
                  ground (arith, e, same)
              | inr f ↦ f ∙ sym e
            ]
          ],
        )
