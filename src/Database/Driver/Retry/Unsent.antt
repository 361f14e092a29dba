-- ===== src/Database/Driver/Retry/Unsent.antt =====
-- driver.ErrBadConn from Prepare, Exec and Query of the driver.
use jt400_go.Prelude.{
  ℕ, ◌≡◌, refl, true, Option, none, some, List, arith, Bool-cases, ◌⊎◌, inl, inr,
}
use jt400_go.Go.{Result, ok, err, panic, stuck, wrap, Bytes}
use jt400_go.Database.Value.{Platform, Value}
use jt400_go.Database.Conn.{
  Session, DbError, err_closed, err_conn_broken, usable, alloc_id, claim, find_free, max_statements,
}
use jt400_go.Database.Stmt.{
  World, Settings, Step, StmtError, server, ◌and_then◌, on_session, stmt_usable,
}
use jt400_go.Database.Stmt.Prepare.{prepare}
use jt400_go.Database.Stmt.Run.{exec, query_values, exec_on, query_on}
use jt400_go.Database.Driver.{
  DriverError, bad_conn, is_broken, is_broken_stmt, map_bad, positional, behind, driver_prepare,
  driver_exec, driver_query,
}
use jt400_go.Database.Driver.Retry.{Live, Clean, and_then-Clean}
use jt400_go.Database.Driver.Retry.Calls.{exec_on-Clean, query_on-Clean, prepare_with-Clean}

-- An error of a clean step is not ErrConnBroken.
Clean-not :
    {A : Type 0} (t : Step A) (e : StmtError) → Clean t → t.1 ≡ err e → is_broken_stmt e ≡ true → ⊥
Clean-not (w, ok a) e h k b = cc
Clean-not (w, err e') e h k b = let same : e' ≡ e = cc in cc
Clean-not (w, panic) e h k b = cc
Clean-not (w, stuck) e h k b = cc

-- A step that gives ErrConnBroken has left the world alone.
abbrev Unsent : {A : Type 0} → World → Step A → Type 0
Unsent w t = (e : StmtError) → t.1 ≡ err e → is_broken_stmt e ≡ true → t.0 ≡ w

usable-cases : (s : Session) → ((e : DbError) × (usable s ≡ err e)) ⊎ ((usable s ≡ ok tt) × Live s)
unfolding usable
usable-cases s = elim (Bool-cases s.closed) [
  | inl over ↦ inl (err_closed, ground (arith, over))
  | inr still ↦ elim (Bool-cases s.broken) [
    | inl bad ↦ inl (err_conn_broken, ground (arith, still, bad))
    | inr good ↦ inr (ground (arith, still, good), (still, good))
  ]
]

-- Behind the test of the connection every step is clean.
usable-Unsent :
    {A : Type 0} (w : World) (f : World → Unit {0} → Step A)
    → (Live w.session → Clean (f w tt))
    → Unsent w ((w, wrap server (usable w.session)) and_then f)
usable-Unsent w f clean = elim (usable-cases w.session) [
  | inl (e, refused) ↦ rw refused (λ e' h b. refl)
  | inr (fine, live) ↦ rw fine (λ e h b. absurd (Clean-not (f w tt) e (clean live) h b))
]

stmt_usable-Unsent :
    {A : Type 0} (w : World) (i : ℕ) (f : World → Unit {0} → Step A)
    → (Live w.session → Clean (f w tt))
    → Unsent w (stmt_usable w i and_then f)
unfolding stmt_usable
stmt_usable-Unsent w i f clean = elim (Bool-cases (w.stmts i).closed) [
  | inl over ↦ λ e h b. rw over refl
  | inr still ↦ rw still (usable-Unsent w f clean)
]

alloc_id-Clean : (w : World) → Live w.session → Clean (on_session w (alloc_id w.session))
unfolding alloc_id claim is_broken_stmt is_broken
alloc_id-Clean w live = claimed (find_free max_statements 1 w.session.ids)
  where
    claimed : (o : Option ℕ) → Clean (on_session w (claim w.session o))
    claimed none = refl
    claimed (some i) = live

-- What badConn makes of a step's outcome.
bad_conn-Unsent :
    {A : Type 0} (w : World) (t : Step A)
    → Unsent w t
    → wrap (map_bad is_broken_stmt) t.1 ≡ err bad_conn
    → t.0 ≡ w
bad_conn-Unsent w (w', ok a) h k = cc
bad_conn-Unsent w (w', err e) h k = elim (Bool-cases (is_broken_stmt e)) [
  | inl broken ↦ h e refl broken
  | inr fine ↦ absurd (ground (arith, fine, k))
]
bad_conn-Unsent w (w', panic) h k = cc
bad_conn-Unsent w (w', stuck) h k = cc

module _ (p : Platform) (o : Settings p) where
  prepare-Unsent : (w : World) (query : Bytes) → Unsent w (prepare p o w query)
  unfolding prepare
  prepare-Unsent w query = usable-Unsent w _ (λ live.
      and_then-Clean (on_session w (alloc_id w.session)) _ (alloc_id-Clean w live)
        (λ w2 id live2. prepare_with-Clean p o w2 id query live2))

  exec-Unsent : (w : World) (i : ℕ) (args : List (Option (Value p))) → Unsent w (exec p o w i args)
  unfolding exec
  exec-Unsent w i args =
      stmt_usable-Unsent w i (λ w1 u. exec_on p o w1 i args) (exec_on-Clean p o w i args)

  query_values-Unsent :
      (w : World) (i : ℕ) (args : List (Option (Value p))) → Unsent w (query_values p o w i args)
  unfolding query_values
  query_values-Unsent w i args =
      stmt_usable-Unsent w i (λ w1 u. query_on p o w1 i args) (query_on-Clean p o w i args)

  behind-Unsent :
      {A : Type 0} (w : World) (m : Result (DriverError StmtError) (List (Option (Value p))))
      (f : List (Option (Value p)) → Step A)
      → ((values : List (Option (Value p))) → Unsent w (f values))
      → (behind p o w m f).1 ≡ err bad_conn
      → (behind p o w m f).0 ≡ w
  behind-Unsent w (ok values) f h k = bad_conn-Unsent w (f values) (h values) k
  behind-Unsent w (err e) f h k = refl
  behind-Unsent w panic f h k = refl
  behind-Unsent w stuck f h k = refl

  -- Where PrepareContext, ExecContext or QueryContext gives driver.ErrBadConn, so that database/sql
  -- runs the call again on another connection, the call has sent nothing and changed nothing: the
  -- connection and its objects are as they were.
  pub bad_conn_unsent :
      (w : World) (query : Bytes) (i : ℕ) (args : List (Bytes × Option (Value p)))
      → ((driver_prepare p o w query).1 ≡ err bad_conn → (driver_prepare p o w query).0 ≡ w)
        × ((driver_exec p o w i args).1 ≡ err bad_conn → (driver_exec p o w i args).0 ≡ w)
        × ((driver_query p o w i args).1 ≡ err bad_conn → (driver_query p o w i args).0 ≡ w)
  unfolding driver_prepare driver_exec driver_query
  bad_conn_unsent w query i args = (
    bad_conn-Unsent w (prepare p o w query) (prepare-Unsent w query),
    behind-Unsent w (positional args) (exec p o w i) (exec-Unsent w i),
    behind-Unsent w (positional args) (query_values p o w i) (query_values-Unsent w i),
  )
