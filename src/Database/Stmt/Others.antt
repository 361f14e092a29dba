-- ===== src/Database/Stmt/Others.antt =====
-- What the end of a statement and Prepare leave of the other statements.
use jt400_go.Prelude.{ℕ, ◌+◌, ◌≤◌, ◌<◌, ◌≡◌, refl, sym, ap, ◌∙◌, true, arith}
use jt400_go.Go.{Result, ok, err, panic, stuck, wrap, Bytes}
use jt400_go.Go.Outcome.{if-both}
use jt400_go.Database.Value.{Platform}
use jt400_go.Database.Conn.{DbError, usable, db_send, alloc_id, free_id}
use jt400_go.Database.Stmt.{
  World, Stmt, Settings, Step, ◌and_then◌, go_on, if_usable, on_session, server, set_stmt, reuse_no,
  wrap,
}
use jt400_go.Database.Stmt.Prepare.{
  rpb_request, or_free, release, released, or_release, describe, delete_descriptor, delete_rpb,
  close_rows, new_stmt, prepare_with, prepare, send_delete, call_delete,
}
use jt400_go.Database.Stmt.Steady.{Keeps, close_rows-Keeps}
use jt400_go.Database.Stmt.Failures.{dropped-world}
use jt400_go.Database.Stmt.Balance.{describe-Keeps, and_then-ok}

module _ (j : ℕ) where
  -- Statement j has its handle and is as closed as it was, and no statement is forgotten.
  abbrev pub Others : World → World → Type 0
  Others w w' =
      ((w'.stmts j).id ≡ (w.stmts j).id)
      × ((w'.stmts j).closed ≡ (w.stmts j).closed)
      × (w.stmt_count ≤ w'.stmt_count)

  pub Others-refl : (w : World) → Others w w
  Others-refl w = (refl, refl, omega arith)

  pub Others-trans : (u v w : World) → Others u v → Others v w → Others u w
  Others-trans u v w h k = (k.0 ∙ h.0, k.1 ∙ h.1, omega (arith, h.2, k.2))

  pub Keeps-Others : (w w' : World) → Keeps j w w' → Others w w'
  Keeps-Others w w' k = (k.1, k.2, omega (arith, k.3))

  pub and_then-Others :
      {A B : Type 0} (w : World) (t : Step A) (f : World → A → Step B)
      → Others w t.0
      → ((a : A) → t.1 ≡ ok a → Others t.0 (f t.0 a).0)
      → Others w (t and_then f).0
  and_then-Others w (w', ok a) f h k = Others-trans w w' (f w' a).0 h (k a refl)
  and_then-Others w (w', err e) f h k = h
  and_then-Others w (w', panic) f h k = h
  and_then-Others w (w', stuck) f h k = h

  go_on-Others :
      (w : World) (t : Step (Unit {0})) (f : World → Step (Unit {0}))
      → Others w t.0
      → Others t.0 (f t.0).0
      → Others w (go_on t f).0
  unfolding go_on
  go_on-Others w (w', ok u) f h k = Others-trans w w' (f w').0 h k
  go_on-Others w (w', err e) f h k = Others-trans w w' (f w').0 h k
  go_on-Others w (w', panic) f h k = h
  go_on-Others w (w', stuck) f h k = h

  if_usable-Others :
      (m : Result DbError (Unit {0})) (w : World) (f : World → Step (Unit {0}))
      → Others w (f w).0
      → Others w (if_usable m w f).0
  unfolding if_usable
  if_usable-Others (ok u) w f h = h
  if_usable-Others (err e) w f h = Others-refl w
  if_usable-Others panic w f h = Others-refl w
  if_usable-Others stuck w f h = Others-refl w

  delete_descriptor-Others : (w : World) (i : ℕ) → Others w (delete_descriptor w i).0
  unfolding delete_descriptor send_delete
  delete_descriptor-Others w i =
      if-both (λ (t : Step (Unit {0})). Others w t.0) (w.stmts i).descriptor_sent _ _
        (Others-refl w) (Others-refl w)

  module _ (p : Platform) (o : Settings p) where
    delete_rpb-Others : (w : World) (i : ℕ) → Others w (delete_rpb p o w i).0
    unfolding delete_rpb call_delete
    delete_rpb-Others w i =
        and_then-Others w (call_delete p o w i) _ (Others-refl w)
          (λ rep h. Others-refl (call_delete p o w i).0)

    released-Others : (w : World) (i : ℕ) → Others w (released p o w i).0
    unfolding released
    released-Others w i =
        let closing = close_rows w i reuse_no in
        let w1 = closing.0 in
        go_on-Others w closing _ (Keeps-Others w w1 (close_rows-Keeps j w i reuse_no)) (
          and_then-Others w1 (delete_descriptor w1 i) _ (delete_descriptor-Others w1 i)
            (λ u h. delete_rpb-Others (delete_descriptor w1 i).0 i))

    -- Behind Stmt.release of statement i, seen from the world in which it is marked as closed.
    pub release-Others :
        (w : World) (i : ℕ)
        → Others (set_stmt w i (record (w.stmts i) { closed = true })) (release p o w i).0
    unfolding release free_id
    release-Others w i =
        let w1 = set_stmt w i (record (w.stmts i) { closed = true }) in
        if_usable-Others (usable w1.session) w1 (λ w'. released p o w' i) (released-Others w1 i)

    or_free-Others :
        (w : World) (id : ℕ) (t : Step (Unit {0})) → Others w t.0 → Others w (or_free id t).0
    unfolding or_free
    or_free-Others w id (w', ok u) h = h
    or_free-Others w id (w', err e) h = h
    or_free-Others w id (w', panic) h = h
    or_free-Others w id (w', stuck) h = h

    module _ (n : ℕ) (other : (j ≡ n) → ⊥) where
      pub set_stmt-Others : (w : World) (st : Stmt) → Others w (set_stmt w n st)
      set_stmt-Others w st = ground arith

      or_release-Others :
          (w : World) (t : Step (Unit {0})) → Others w t.0 → Others w (or_release p o n t).0
      unfolding or_release
      or_release-Others w (w', ok u) h = h
      or_release-Others w (w', err e) h =
          let w1 = set_stmt w' n (record (w'.stmts n) { closed = true }) in
          let w2 = (release p o w' n).0 in
          let whole = Others-trans w w' w2 h (
            Others-trans w' w1 w2 (set_stmt-Others w' (record (w'.stmts n) { closed = true }))
              (release-Others w' n)) in
          rw (dropped-world p o e (release p o w' n)) whole
      or_release-Others w (w', panic) h = h
      or_release-Others w (w', stuck) h = h

    -- Prepare behind allocID, seen from the world with the new statement.
    prepare_with-Others :
        (w : World) (id : ℕ) (query : Bytes)
        → ((j ≡ w.stmt_count) → ⊥)
        → Others (new_stmt p o w id query) (prepare_with p o w id query).0
    unfolding prepare_with
    prepare_with-Others w id query other =
        let n = w.stmt_count in
        let w0 = new_stmt p o w id query in
        let first =
          (w0, rpb_request id) and_then λ w1 req. on_session w1 (db_send w1.session req) in
        let w2 = (or_free id first).0 in
        let d = describe p o w2 n query in
        let begun =
          or_free-Others w0 id first (
            and_then-Others w0 (w0, rpb_request id) _ (Others-refl w0) (λ req h. Others-refl w0)) in
        let told = Keeps-Others w2 d.0 (describe-Keeps p o j w2 n query) in
        and_then-Others w0 (or_free id first) _ begun (λ u h1.
          and_then-Others w2 (or_release p o n d) _ (or_release-Others n other w2 d told)
            (λ u2 h2. Others-refl (or_release p o n d).0))

    new_stmt-Others :
        (w : World) (id : ℕ) (query : Bytes)
        → ((j ≡ w.stmt_count) → ⊥)
        → Others w (new_stmt p o w id query)
    new_stmt-Others w id query other = ground arith

    -- Prepare leaves every statement but the one that it makes.
    pub prepare-Others :
        (w : World) (query : Bytes) → ((j ≡ w.stmt_count) → ⊥) → Others w (prepare p o w query).0
    unfolding prepare
    prepare-Others w query other =
        and_then-Others w (w, wrap server (usable w.session)) _ (Others-refl w)
          (λ u h. and_then-Others w (on_session w (alloc_id w.session)) _ (Others-refl w) (λ id h'.
            let w2 = (on_session w (alloc_id w.session)).0 in
            Others-trans w2 (new_stmt p o w2 id query) (prepare_with p o w2 id query).0
              (new_stmt-Others w2 id query other) (prepare_with-Others w2 id query other)))

module _ (p : Platform) (o : Settings p) where
  -- A Prepare that succeeds made one more statement.
  pub prepare-more :
      (w : World) (query : Bytes) (i : ℕ)
      → (prepare p o w query).1 ≡ ok i
      → w.stmt_count < (prepare p o w query).0.stmt_count
  unfolding prepare
  prepare-more w query i h =
      let (u, fine, same) = and_then-ok (w, wrap server (usable w.session)) _ i h in
      let (id, taken, same2) =
        and_then-ok (on_session w (alloc_id w.session)) (λ w2 id. prepare_with p o w2 id query) i
          (ap (λ (t : Step ℕ). t.1) (sym same) ∙ h) in
      let w2 = (on_session w (alloc_id w.session)).0 in
      let counted : (prepare p o w query).0.stmt_count
          ≡ (prepare_with p o w2 id query).0.stmt_count =
        ap (λ (t : Step ℕ). t.0.stmt_count) (same ∙ same2) in
      let more = prepare_with-Others (w.stmt_count + 1) p o w2 id query (λ e. omega (arith, e)) in
      omega (arith, counted, more.2)
