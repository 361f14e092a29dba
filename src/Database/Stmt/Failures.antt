-- ===== src/Database/Stmt/Failures.antt =====
-- A Prepare that fails keeps no handle.
use jt400_go.Prelude.{
  ℕ, ◌≡◌, refl, sym, ap, ◌∙◌, Bool, true, false, Option, none, some, ◌==◌, if◌then◌else◌, arith,
}
use jt400_go.Go.{Result, ok, err, panic, stuck, ◌>>=◌, wrap, Bytes}
use jt400_go.Go.Outcome.{wrap-eq-ok}
use jt400_go.Database.Ccsid.{decode_server_text, encode_string, client_ccsid}
use jt400_go.Database.Value.{Platform}
use jt400_go.Database.Wire.{DbRequest, DbReply, failed}
use jt400_go.Database.Conn.{
  usable, db_send, db_call, alloc_id, find_free, claim, free_id, set_id, max_statements,
}
use jt400_go.Database.Conn.Sends.{db_send-ids, db_call-ids}
use jt400_go.Database.Stmt.{
  World, Stmt, Settings, Step, StmtError, ◌and_then◌, on_session, server, bad_query,
}
use jt400_go.Database.Stmt.Prepare.{
  rpb_request, or_free, release, or_release, dropped, describe, new_stmt, prepare_with, prepare,
  prepare_request,
}
use jt400_go.Database.Stmt.Handles.{release-ids}
use jt400_go.Database.Conn.Handles.{free_id-alloc_id}

-- If a sequence of steps fails, one of them has failed.
and_then-err :
    {A B : Type 0} (P : World → Type 0) (t : Step A) (f : World → A → Step B)
    → ((e : StmtError) → t.1 ≡ err e → P t.0)
    → ((w : World) (a : A) → t ≡ (w, ok a) → (e : StmtError) → (f w a).1 ≡ err e → P (f w a).0)
    → (e : StmtError) → (t and_then f).1 ≡ err e
    → P (t and_then f).0
and_then-err P (w, ok a) f h k e g = k w a refl e g
and_then-err P (w, err e') f h k e g = h e' refl
and_then-err P (w, panic) f h k e g = cc
and_then-err P (w, stuck) f h k e g = cc

-- The handles in use and the statements are the same.
abbrev pub Unmoved : World → World → Type 0
Unmoved w w' = (w'.session.ids ≡ w.session.ids) × (w'.stmts ≡ w.stmts)

-- What looks at a reply fails without touching the world.
refused :
    (P : World → Type 0) (bad : Bool) (w w' : World) (e' e : StmtError)
    → P w
    → (if◌then◌else◌ {A = Step (Unit {0})} bad (w, err e') (w', ok tt)).1 ≡ err e
    → P (if◌then◌else◌ {A = Step (Unit {0})} bad (w, err e') (w', ok tt)).0
refused P true w w' e' e kept h = kept
refused P false w w' e' e kept h = cc

pub ==_refl : (n : ℕ) → (n == n) ≡ true
==_refl n = ground arith

alloc_refused :
    (w : World) (o : Option ℕ) (e : StmtError)
    → (on_session w (claim w.session o)).1 ≡ err e
    → (on_session w (claim w.session o)).0.session.ids ≡ w.session.ids
unfolding claim
alloc_refused w none e h = refl
alloc_refused w (some i) e h = cc

alloc_id-refused :
    (w : World) (e : StmtError)
    → (on_session w (alloc_id w.session)).1 ≡ err e
    → (on_session w (alloc_id w.session)).0.session.ids ≡ w.session.ids
unfolding alloc_id
alloc_id-refused w e h = alloc_refused w (find_free max_statements 1 w.session.ids) e h

module _ (p : Platform) (o : Settings p) where
  open o use {registry}

  describe-Unmoved :
      (w : World) (i : ℕ) (query : Bytes) (e : StmtError)
      → (describe p o w i query).1 ≡ err e
      → Unmoved w (describe p o w i query).0
  unfolding describe
  describe-Unmoved w i query =
      let m =
        wrap bad_query (encode_string registry client_ccsid query)
        >>= prepare_request p o (w.stmts i) in
      and_then-err (Unmoved w) (w, m) _ (λ e h. (refl, refl))
        (λ w1 req same.
          let here : w1 ≡ w = ap (λ (t : Step DbRequest). t.0) (sym same) in
          and_then-err (Unmoved w)
            (on_session w1 (db_call (decode_server_text registry) w1.session req)) _
            (λ e h. rw here (db_call-ids (decode_server_text registry) w.session req, refl))
            (λ w2 rep same2 e h.
              let there : w2
                  ≡ (on_session w1 (db_call (decode_server_text registry) w1.session req)).0 =
                ap (λ (t : Step DbReply). t.0) (sym same2) in
              refused (Unmoved w) (failed rep) w2 _ _ e
                (rw (there, here) (db_call-ids (decode_server_text registry) w.session req, refl))
                h))

  pub dropped-world :
      (e : StmtError) (t : Step (Unit {0})) → (dropped p o {A = Unit {0}} e t).0 ≡ t.0
  dropped-world e (w, ok u) = refl
  dropped-world e (w, err e') = refl
  dropped-world e (w, panic) = refl
  dropped-world e (w, stuck) = refl

  or_release-ids :
      (i : ℕ) (t : Step (Unit {0})) (e : StmtError)
      → (or_release p o i t).1 ≡ err e
      → ((e' : StmtError) × (t.1 ≡ err e'))
        × ((or_release p o i t).0.session.ids ≡ set_id t.0.session.ids (t.0.stmts i).id false)
  unfolding or_release
  or_release-ids i (w, ok a) e h = cc
  or_release-ids i (w, err e') e h = (
    (e', refl),
    ap (λ w'. w'.session.ids) (dropped-world e' (release p o w i)) ∙ release-ids p o w i,
  )
  or_release-ids i (w, panic) e h = cc
  or_release-ids i (w, stuck) e h = cc

  pub created-Unmoved :
      (w : World) (m : Result StmtError DbRequest)
      → Unmoved w ((w, m) and_then λ w1 req. on_session w1 (db_send w1.session req)).0
  created-Unmoved w (ok req) = (db_send-ids w.session req, refl)
  created-Unmoved w (err e) = (refl, refl)
  created-Unmoved w panic = (refl, refl)
  created-Unmoved w stuck = (refl, refl)

  or_free-ids :
      (id : ℕ) (t : Step (Unit {0})) (e : StmtError)
      → (or_free id t).1 ≡ err e
      → (or_free id t).0.session.ids ≡ set_id t.0.session.ids id false
  unfolding or_free free_id
  or_free-ids id (w, ok u) e h = cc
  or_free-ids id (w, err e') e h = refl
  or_free-ids id (w, panic) e h = cc
  or_free-ids id (w, stuck) e h = cc

  pub or_free-ok :
      (id : ℕ) (t : Step (Unit {0})) (w : World) (u : Unit {0}) → or_free id t ≡ (w, ok u) → t.0 ≡ w
  unfolding or_free
  or_free-ok id (w', ok u') w u h = ap (λ (t : Step (Unit {0})). t.0) h
  or_free-ok id (w', err e) w u h = cc
  or_free-ok id (w', panic) w u h = cc
  or_free-ok id (w', stuck) w u h = cc

  -- A Prepare that fails behind allocID gives the handle back.
  prepare_with-ids :
      (w : World) (id : ℕ) (query : Bytes) (e : StmtError)
      → (prepare_with p o w id query).1 ≡ err e
      → (prepare_with p o w id query).0.session.ids ≡ set_id w.session.ids id false
  unfolding prepare_with
  prepare_with-ids w id query =
      let P = λ (w' : World). w'.session.ids ≡ set_id w.session.ids id false in
      let i = w.stmt_count in
      let w0 = new_stmt p o w id query in
      let t = (w0, rpb_request id) and_then λ w1 req. on_session w1 (db_send w1.session req) in
      let (kept, stays) = created-Unmoved w0 (rpb_request id) in
      and_then-err P (or_free id t) _
        (λ e h. or_free-ids id t e h ∙ ap (λ ids. set_id ids id false) kept)
        (λ w2 u same.
          let here = or_free-ok id t w2 u same in
          let d = describe p o w2 i query in
          and_then-err P (or_release p o i d) _
            (λ e h.
              let ((e', failing), gone) = or_release-ids i d e h in
              let (kept', stays') = describe-Unmoved w2 i query e' failing in
              let ids : d.0.session.ids ≡ w.session.ids =
                kept' ∙ (ap (λ (v : World). v.session.ids) (sym here) ∙ kept) in
              let mine : (w0.stmts i).id ≡ id = rw (==_refl i) refl in
              let own : (d.0.stmts i).id ≡ id =
                ap (λ (f : ℕ → Stmt). (f i).id)
                  (stays' ∙ (ap (λ (v : World). v.stmts) (sym here) ∙ stays))
                ∙ mine in
              gone ∙ rw (ids, own) refl)
            (λ w3 u same e h. cc))

  -- A Prepare that fails leaves the same handles in use as before it.
  pub prepare_failed-ids :
      (w : World) (query : Bytes) (e : StmtError) (j : ℕ)
      → (prepare p o w query).1 ≡ err e
      → (prepare p o w query).0.session.ids j ≡ w.session.ids j
  unfolding prepare free_id
  prepare_failed-ids w query e j =
      let P = λ (w' : World). w'.session.ids j ≡ w.session.ids j in
      and_then-err P (w, wrap server (usable w.session)) _ (λ e h. refl)
        (λ w1 u same.
          let here : w1 ≡ w = ap (λ (t : Step (Unit {0})). t.0) (sym same) in
          let back = ap (λ (v : World). v.session.ids j) here in
          and_then-err P (on_session w1 (alloc_id w1.session)) _
            (λ e h. ap (λ (ids : ℕ → Bool). ids j) (alloc_id-refused w1 e h) ∙ back)
            (λ w2 id taken e h.
              let chosen =
                wrap-eq-ok server (alloc_id w1.session).1 (ap (λ (t : Step ℕ). t.1) taken) in
              let there = ap (λ (t : Step ℕ). set_id t.0.session.ids id false j) (sym taken) in
              ap (λ (ids : ℕ → Bool). ids j) (prepare_with-ids w2 id query e h)
              ∙ (there ∙ (free_id-alloc_id w1.session id chosen j ∙ back))))
        e
