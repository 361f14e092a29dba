-- ===== src/Database/Stmt/Owning.antt =====
-- What Prepare, Close, Conn.Exec and Conn.Query leave of the statements that a program holds.
use jt400_go.Prelude.{ℕ, ◌≡◌, refl, sym, ap, ◌∙◌, true, false, Bool, Bool-cases, arith, inl, inr}
use jt400_go.Prelude.Int.{ℤ}
use jt400_go.Go.{ok, err, panic, stuck, returns, Bytes}
use jt400_go.Go.Outcome.{if-both}
use jt400_go.Database.Value.{Platform}
use jt400_go.Database.Conn.{set_id}
use jt400_go.Database.Stmt.{
  World, Settings, Step, StmtError, ◌and_then◌, go_on, set_stmt, reuse_yes,
}
use jt400_go.Database.Stmt.Cursor.{close_cursor}
use jt400_go.Database.Stmt.Prepare.{prepare, stmt_close, release}
use jt400_go.Database.Stmt.Run.{close_rows_value, closed_with}
use jt400_go.Database.Stmt.Direct.{closed_after, opened}
use jt400_go.Database.Stmt.Handles.{release-ids}
use jt400_go.Database.Stmt.Failures.{==_refl, prepare_failed-ids}
use jt400_go.Database.Stmt.Steady.{Keeps, close_cursor-Keeps}
use jt400_go.Database.Stmt.Balance.{prepare-ok, and_then-ok, then_given-world, closed_with-world}
use jt400_go.Database.Stmt.Others.{
  Others-trans, Keeps-Others, release-Others, prepare-Others, set_stmt-Others, prepare-more,
}
use jt400_go.Database.Conn.Handles.{alloc_id_lowest, alloc_id-ids}
use jt400_go.Database.Stmt.Owned.{
  Owned, calm-Owned, closed-Owned, new-Owned, fewer-Owned, set_id-same, set_id-true,
}

-- A step that keeps every statement.
pub keeping-Owned :
    (w w' : World) (held : ℕ → Bool) → ((j : ℕ) → Keeps j w w') → Owned w held → Owned w' held
keeping-Owned w w' held keeps owned =
    calm-Owned w w' held owned (λ k. ap (λ f. f k) (keeps k).0)
      (λ i h. Keeps-Others i w w' (keeps i))

-- A step on a statement that was made, if it was.
and_then-Owned :
    {B : Type 0} (held : ℕ → Bool) (t : Step ℕ) (f : World → ℕ → Step B)
    → ((e : StmtError) → t.1 ≡ err e → Owned t.0 held)
    → ((i : ℕ) → t.1 ≡ ok i → Owned (f t.0 i).0 held)
    → returns (t and_then f).1 ≡ true
    → Owned (t and_then f).0 held
and_then-Owned held (w, ok i) f h k back = k i refl
and_then-Owned held (w, err e) f h k back = h e refl
and_then-Owned held (w, panic) f h k back = cc
and_then-Owned held (w, stuck) f h k back = cc

module _ (p : Platform) (o : Settings p) where
  release-Owned :
      (w : World) (held : ℕ → Bool) (i : ℕ)
      → held i ≡ true
      → (w.stmts i).closed ≡ false
      → Owned w held
      → Owned (release p o w i).0 held
  release-Owned w held i mine live owned =
      let ended = record (w.stmts i) { closed = true } in
      let w1 = set_stmt w i ended in
      let w2 = (release p o w i).0 in
      let (own_id, own_closed, more) = release-Others i p o w i in
      let marked : (w1.stmts i).closed ≡ true = rw (==_refl i) refl in
      closed-Owned w w2 held owned i mine live (own_closed ∙ marked) more
        (λ k. ap (λ f. f k) (release-ids p o w i))
        (λ j other.
          Others-trans j w w1 w2 (set_stmt-Others j p o i other w ended) (release-Others j p o w i))

  pub stmt_close-Owned :
      (w : World) (held : ℕ → Bool) (i : ℕ)
      → held i ≡ true
      → Owned w held
      → Owned (stmt_close p o w i).0 held
  unfolding stmt_close
  stmt_close-Owned w held i mine owned = elim (Bool-cases (w.stmts i).closed) [
    | inl over ↦ rw over owned
    | inr live ↦ rw live (release-Owned w held i mine live owned)
  ]

  go_on-Owned :
      (held : ℕ → Bool) (t : Step (Unit {0})) (f : World → Step (Unit {0}))
      → Owned t.0 held
      → Owned (f t.0).0 held
      → Owned (go_on t f).0 held
  unfolding go_on
  go_on-Owned held (w, ok u) f h k = k
  go_on-Owned held (w, err e) f h k = k
  go_on-Owned held (w, panic) f h k = h
  go_on-Owned held (w, stuck) f h k = h

  pub close_rows_value-Owned :
      (w : World) (held : ℕ → Bool) (r : ℕ)
      → held (w.cursors r).st ≡ true
      → Owned w held
      → Owned (close_rows_value p o w r).0 held
  unfolding close_rows_value
  close_rows_value-Owned w held r mine owned =
      let rs = w.cursors r in
      let closing = close_cursor w r reuse_yes in
      let kept = keeping-Owned w closing.0 held (λ j. close_cursor-Keeps j w r reuse_yes) owned in
      if-both (λ (t : Step (Unit {0})). Owned t.0 held) rs.closed _ _ owned
        (if-both (λ (t : Step (Unit {0})). Owned t.0 held) rs.close_stmt _ _
          (go_on-Owned held closing _ kept (stmt_close-Owned closing.0 held rs.st mine kept)) kept)

  pub unprepared-Owned :
      (w : World) (held : ℕ → Bool) (query : Bytes) (e : StmtError)
      → (prepare p o w query).1 ≡ err e
      → Owned w held
      → Owned (prepare p o w query).0 held
  unprepared-Owned w held query e failed owned =
      calm-Owned w (prepare p o w query).0 held owned
        (λ k. prepare_failed-ids p o w query e k failed)
        (λ i h. prepare-Others i p o w query (λ e. omega (arith, owned.0 i h, e)))

  pub prepared-Owned :
      (w : World) (held : ℕ → Bool) (query : Bytes) (i : ℕ)
      → (prepare p o w query).1 ≡ ok i
      → Owned w held
      → Owned (prepare p o w query).0 (set_id held i true)
  prepared-Owned w held query i made owned =
      let (id, chosen, ids, own, live, new) = prepare-ok p o w query i made in
      let w' = (prepare p o w query).0 in
      let whole =
        new-Owned w w' held owned id (alloc_id_lowest w.session id 1 chosen (omega arith)).0
          (ids ∙ alloc_id-ids w.session id chosen) (ap (λ k. (w'.stmts k).id) (sym new) ∙ own)
          (prepare-more p o w query i made) (λ j other. prepare-Others j p o w query other) in
      rw new whole

  pub closed_after-Owned :
      (held : ℕ → Bool) (i : ℕ) (t : Step ℤ)
      → held i ≡ true
      → Owned t.0 held
      → Owned (closed_after p o i t).0 held
  unfolding closed_after
  closed_after-Owned held i (w, ok n) mine owned =
      rw (then_given-world p o (stmt_close p o w i) n) (stmt_close-Owned w held i mine owned)
  closed_after-Owned held i (w, err e) mine owned =
      rw (closed_with-world p o e (stmt_close p o w i)) (stmt_close-Owned w held i mine owned)
  closed_after-Owned held i (w, panic) mine owned = owned
  closed_after-Owned held i (w, stuck) mine owned = owned

  pub opened-Owned :
      (held : ℕ → Bool) (i : ℕ) (t : Step ℕ)
      → held i ≡ true
      → Owned t.0 held
      → Owned (opened p o i t).0 held
  unfolding opened closed_with
  opened-Owned held i (w, ok r) mine owned = owned
  opened-Owned held i (w, err e) mine owned = stmt_close-Owned w held i mine owned
  opened-Owned held i (w, panic) mine owned = owned
  opened-Owned held i (w, stuck) mine owned = owned

  -- Prepare and what follows it, on the statement that it made.
  module _ {B : Type 0} (w : World) (held : ℕ → Bool) (query : Bytes) (f : World → ℕ → Step B)
      (owned : Owned w held)
      (then : (w' : World) (more : ℕ → Bool) (i : ℕ)
        → more i ≡ true
        → Owned w' more
        → Owned (f w' i).0 more) where
    made-Owned :
        (i : ℕ)
        → (prepare p o w query).1 ≡ ok i
        → Owned (f (prepare p o w query).0 i).0 (set_id held i true)
    made-Owned i made =
        then (prepare p o w query).0 (set_id held i true) i (set_id-same held i true)
          (prepared-Owned w held query i made owned)

    pub prepare_then-Owned :
        returns (prepare p o w query and_then f).1 ≡ true
        → Owned (prepare p o w query and_then f).0 held
    prepare_then-Owned back =
        and_then-Owned held (prepare p o w query) f
          (λ e failed. unprepared-Owned w held query e failed owned)
          (λ i made.
            fewer-Owned (f (prepare p o w query).0 i).0 (set_id held i true) held
              (λ k h. set_id-true held i k h) (made-Owned i made))
          back

    pub prepare_kept-Owned :
        (b : B)
        → (prepare p o w query and_then f).1 ≡ ok b
        → Owned (prepare p o w query and_then f).0 (set_id held w.stmt_count true)
    prepare_kept-Owned b h =
        let (i, made, same) = and_then-ok (prepare p o w query) f b h in
        let (id, chosen, ids, own, live, new) = prepare-ok p o w query i made in
        let kept =
          fewer-Owned (f (prepare p o w query).0 i).0 (set_id held i true)
            (set_id held w.stmt_count true) (λ k h'. ap (λ n. set_id held n true k) new ∙ h')
            (made-Owned i made) in
        rw same kept
