-- ===== src/Database/Stmt/Balance.antt =====
-- Conn.Exec keeps no handle: the statement that it prepares gives its own back.
use jt400_go.Prelude.{ℕ, ◌≡◌, refl, sym, ap, ◌∙◌, Bool, true, false, Option, List}
use jt400_go.Prelude.Int.{ℤ}
use jt400_go.Go.{Result, ok, err, panic, stuck, ◌>>=◌, wrap, returns, Bytes}
use jt400_go.Go.Outcome.{wrap-eq-ok, if-both}
use jt400_go.Database.Ccsid.{decode_server_text, encode_string, client_ccsid}
use jt400_go.Database.Value.{Platform, Value}
use jt400_go.Database.Wire.{failed}
use jt400_go.Database.Conn.{
  usable, db_send, db_call, alloc_id, free_id, set_id, server_error, op_prepare,
}
use jt400_go.Database.Conn.Sends.{db_call-ids}
use jt400_go.Database.Conn.Handles.{free_id-alloc_id}
use jt400_go.Database.Stmt.{
  World, Stmt, Settings, Step, StmtError, ◌and_then◌, on_session, server, bad_query, set_stmt,
}
use jt400_go.Database.Stmt.Prepare.{
  rpb_request, or_free, release, or_release, describe, described, new_stmt, prepare_with, prepare,
  prepare_request, stmt_close, dropped,
}
use jt400_go.Database.Stmt.Run.{closed_with}
use jt400_go.Database.Stmt.Direct.{convert_args, stmt_exec, closed_after, conn_exec, stmt_query}
use jt400_go.Database.Stmt.Handles.{release-ids}
use jt400_go.Database.Stmt.Failures.{==_refl, prepare_failed-ids, created-Unmoved}
use jt400_go.Database.Stmt.Steady.{
  Keeps, Keeps-refl, and_then-Keeps, set_stmt-Keeps, exec-Keeps, query_values-Keeps,
}

-- A sequence of steps that succeeds goes on behind a first step that succeeds.
pub and_then-ok :
    {A B : Type 0} (t : Step A) (f : World → A → Step B) (b : B)
    → (t and_then f).1 ≡ ok b
    → (a : A) × (t.1 ≡ ok a) × ((t and_then f) ≡ f t.0 a)
and_then-ok (w, ok a) f b h = (a, refl, refl)
and_then-ok (w, err e) f b h = cc
and_then-ok (w, panic) f b h = cc
and_then-ok (w, stuck) f b h = cc

number_of : (i n : ℕ) (r : Result StmtError ℕ) → r ≡ ok i → r ≡ ok n → i ≡ n
number_of i n r h k = cc

or_free_same :
    (id : ℕ) (t : Step (Unit {0})) (u : Unit {0}) → (or_free id t).1 ≡ ok u → (or_free id t).0 ≡ t.0
unfolding or_free
or_free_same id (w, ok u') u h = refl
or_free_same id (w, err e) u h = cc
or_free_same id (w, panic) u h = cc
or_free_same id (w, stuck) u h = cc

module _ (p : Platform) (o : Settings p) where
  open o use {registry}

  pub describe-Keeps :
      (j : ℕ) (w : World) (i : ℕ) (query : Bytes) → Keeps j w (describe p o w i query).0
  unfolding describe
  describe-Keeps j w i query =
      let m =
        wrap bad_query (encode_string registry client_ccsid query)
        >>= prepare_request p o (w.stmts i) in
      and_then-Keeps j w (w, m) _ (Keeps-refl j w)
        λ w1 req.
          and_then-Keeps j w1 (on_session w1 (db_call (decode_server_text registry) w1.session req))
            _ (db_call-ids (decode_server_text registry) w1.session req, refl, refl, refl)
            λ w2 rep.
              if-both (λ (t : Step (Unit {0})). Keeps j w2 t.0) (failed rep)
                (w2, err (server (server_error op_prepare rep)))
                (set_stmt w2 i (described (w2.stmts i) rep), ok tt) (Keeps-refl j w2)
                (set_stmt-Keeps j w2 i (described (w2.stmts i) rep) refl refl)

  dropped_fails :
      (e : StmtError) (t : Step (Unit {0})) (u : Unit {0})
      → (dropped p o {A = Unit {0}} e t).1 ≡ ok u
      → ⊥
  dropped_fails e (w, ok u') u h = cc
  dropped_fails e (w, err e') u h = cc
  dropped_fails e (w, panic) u h = cc
  dropped_fails e (w, stuck) u h = cc

  or_release-ok :
      (i : ℕ) (t : Step (Unit {0})) (u : Unit {0})
      → (or_release p o i t).1 ≡ ok u
      → or_release p o i t ≡ t
  unfolding or_release
  or_release-ok i (w, ok a) u h = refl
  or_release-ok i (w, err e) u h = absurd (dropped_fails e (release p o w i) u h)
  or_release-ok i (w, panic) u h = cc
  or_release-ok i (w, stuck) u h = cc

  -- A Prepare that succeeds behind allocID made a statement that is open, with that handle.
  prepare_with-ok :
      (w : World) (id i : ℕ) (query : Bytes)
      → (prepare_with p o w id query).1 ≡ ok i
      → ((prepare_with p o w id query).0.session.ids ≡ w.session.ids)
        × (((prepare_with p o w id query).0.stmts i).id ≡ id)
        × (((prepare_with p o w id query).0.stmts i).closed ≡ false)
        × (i ≡ w.stmt_count)
  unfolding prepare_with
  prepare_with-ok w id i query h =
      let n = w.stmt_count in
      let w0 = new_stmt p o w id query in
      let first = (w0, rpb_request id) and_then λ w1 req. on_session w1 (db_send w1.session req) in
      let (kept, stays) = created-Unmoved p o w0 (rpb_request id) in
      let (u, named, same) = and_then-ok (or_free id first) _ i h in
      let unfreed : (or_free id first).0 ≡ first.0 = or_free_same id first u named in
      let w2 = (or_free id first).0 in
      let d = describe p o w2 n query in
      let (v, described, same2) =
        and_then-ok (or_release p o n d) (λ w3 u. (w3, ok n)) i
          (ap (λ (t : Step ℕ). t.1) (sym same) ∙ h) in
      let released = or_release-ok n d v described in
      let (k1, k2, k3, k4) = describe-Keeps n w2 n query in
      let whole : prepare_with p o w id query ≡ (d.0, ok n) =
        same ∙ (same2 ∙ ap (λ (t : Step (Unit {0})). (t.0, ok n)) released) in
      let world : (prepare_with p o w id query).0 ≡ d.0 = ap (λ (t : Step ℕ). t.0) whole in
      let number : i ≡ n =
        number_of i n (prepare_with p o w id query).1 h (ap (λ (t : Step ℕ). t.1) whole) in
      let there : (w2.session.ids ≡ w.session.ids) × (w2.stmts ≡ w0.stmts) =
        rw unfreed (kept, stays) in
      let mine : ((w0.stmts n).id ≡ id) × ((w0.stmts n).closed ≡ false) =
        rw (==_refl n) (refl, refl) in
      rw (world, number)
        (
          k1 ∙ there.0,
          k2 ∙ (ap (λ (f : ℕ → Stmt). (f n).id) there.1 ∙ mine.0),
          k3 ∙ (ap (λ (f : ℕ → Stmt). (f n).closed) there.1 ∙ mine.1),
          refl,
        )

  -- A Prepare that succeeds took a handle that was free, for a statement that is new and open.
  pub prepare-ok :
      (w : World) (query : Bytes) (i : ℕ)
      → (prepare p o w query).1 ≡ ok i
      → (id : ℕ) × ((alloc_id w.session).1 ≡ ok id)
        × ((prepare p o w query).0.session.ids ≡ (alloc_id w.session).0.ids)
        × (((prepare p o w query).0.stmts i).id ≡ id)
        × (((prepare p o w query).0.stmts i).closed ≡ false)
        × (i ≡ w.stmt_count)
  unfolding prepare
  prepare-ok w query i h =
      let (u, fine, same) = and_then-ok (w, wrap server (usable w.session)) _ i h in
      let (id, taken, same2) =
        and_then-ok (on_session w (alloc_id w.session)) (λ w2 id. prepare_with p o w2 id query) i
          (ap (λ (t : Step ℕ). t.1) (sym same) ∙ h) in
      let w2 = (on_session w (alloc_id w.session)).0 in
      let whole : prepare p o w query ≡ prepare_with p o w2 id query = same ∙ same2 in
      let (k1, k2, k3, k4) =
        prepare_with-ok w2 id i query (ap (λ (t : Step ℕ). t.1) (sym whole) ∙ h) in
      let world = ap (λ (t : Step ℕ). t.0) whole in
      (
        id,
        wrap-eq-ok server (alloc_id w.session).1 taken,
        ap (λ (v : World). v.session.ids) world ∙ k1,
        ap (λ (v : World). (v.stmts i).id) world ∙ k2,
        ap (λ (v : World). (v.stmts i).closed) world ∙ k3,
        k4,
      )

  -- Close of an open statement gives its handle back.
  stmt_close-ids :
      (w : World) (i : ℕ)
      → (w.stmts i).closed ≡ false
      → (stmt_close p o w i).0.session.ids ≡ set_id w.session.ids (w.stmts i).id false
  unfolding stmt_close
  stmt_close-ids w i open_still = rw open_still (release-ids p o w i)

  pub closed_with-world :
      (e : StmtError) (t : Step (Unit {0})) → (closed_with p o {A = ℤ} e t).0 ≡ t.0
  unfolding closed_with
  closed_with-world e (w, r) = refl

  pub then_given-world : (t : Step (Unit {0})) (n : ℤ) → (t and_then λ w u. (w, ok n)).0 ≡ t.0
  then_given-world (w, ok u) n = refl
  then_given-world (w, err e) n = refl
  then_given-world (w, panic) n = refl
  then_given-world (w, stuck) n = refl

  closed_after-ids :
      (i : ℕ) (t : Step ℤ)
      → (t.0.stmts i).closed ≡ false
      → returns (closed_after p o i t).1 ≡ true
      → (closed_after p o i t).0.session.ids ≡ set_id t.0.session.ids (t.0.stmts i).id false
  unfolding closed_after
  closed_after-ids i (w, ok n) open_still h =
      ap (λ (v : World). v.session.ids) (then_given-world (stmt_close p o w i) n)
      ∙ stmt_close-ids w i open_still
  closed_after-ids i (w, err e) open_still h =
      ap (λ (v : World). v.session.ids) (closed_with-world e (stmt_close p o w i))
      ∙ stmt_close-ids w i open_still
  closed_after-ids i (w, panic) open_still h = cc
  closed_after-ids i (w, stuck) open_still h = cc

  -- What comes back of a sequence of steps, by its first one.
  and_then-ids :
      (j : ℕ) (ids : ℕ → Bool) (t : Step ℕ) (f : World → ℕ → Step ℤ)
      → ((e : StmtError) → t.1 ≡ err e → t.0.session.ids j ≡ ids j)
      → ((i : ℕ) → t.1 ≡ ok i → returns (f t.0 i).1 ≡ true → (f t.0 i).0.session.ids j ≡ ids j)
      → returns (t and_then f).1 ≡ true
      → (t and_then f).0.session.ids j ≡ ids j
  and_then-ids j ids (w, ok i) f h k r = k i refl r
  and_then-ids j ids (w, err e) f h k r = h e refl
  and_then-ids j ids (w, panic) f h k r = cc
  and_then-ids j ids (w, stuck) f h k r = cc

  module _ {Arg : Type 0} (convert : Arg → Option (Option (Value p))) where
    pub stmt_exec-Keeps :
        (j i : ℕ) (w : World) (args : List Arg) → Keeps j w (stmt_exec p o convert w i args).0
    unfolding stmt_exec
    stmt_exec-Keeps j i w args =
        and_then-Keeps j w (w, convert_args p o convert 1 args) _ (Keeps-refl j w)
          (λ w' values. exec-Keeps j p o w' i values)

    pub stmt_query-Keeps :
        (j i : ℕ) (w : World) (args : List Arg) → Keeps j w (stmt_query p o convert w i args).0
    unfolding stmt_query
    stmt_query-Keeps j i w args =
        and_then-Keeps j w (w, convert_args p o convert 1 args) _ (Keeps-refl j w)
          (λ w' values. query_values-Keeps j p o w' i values)

    -- Conn.Exec keeps no handle: if it comes back, with a result or an error from whatever step, the
    -- same handles are in use as before it.
    pub conn_exec-ids :
        (w : World) (query : Bytes) (args : List Arg) (j : ℕ)
        → returns (conn_exec p o convert w query args).1 ≡ true
        → (conn_exec p o convert w query args).0.session.ids j ≡ w.session.ids j
    unfolding conn_exec free_id
    conn_exec-ids w query args j =
        let t = prepare p o w query in
        and_then-ids j w.session.ids t
          (λ w' i. closed_after p o i (stmt_exec p o convert w' i args))
          (λ e failing. prepare_failed-ids p o w query e j failing)
          (λ i made back.
            let (id, chosen, ids, own, open_still, new) = prepare-ok w query i made in
            let run = stmt_exec p o convert t.0 i args in
            let (k1, k2, k3, k4) = stmt_exec-Keeps i i t.0 args in
            let given = closed_after-ids i run (k3 ∙ open_still) back in
            let held : run.0.session.ids ≡ (alloc_id w.session).0.ids = k1 ∙ ids in
            let handle : (run.0.stmts i).id ≡ id = k2 ∙ own in
            let freed : (closed_after p o i run).0.session.ids
                ≡ set_id (alloc_id w.session).0.ids id false =
              given
              ∙ (ap (λ (f : ℕ → Bool). set_id f (run.0.stmts i).id false) held
                  ∙ ap (λ (k : ℕ). set_id (alloc_id w.session).0.ids k false) handle) in
            ap (λ (f : ℕ → Bool). f j) freed ∙ free_id-alloc_id w.session id chosen j)
