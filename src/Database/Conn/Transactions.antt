-- ===== src/Database/Conn/Transactions.antt =====
-- Begin, Commit and Rollback: the requests they send and the state they leave.
use jt400_go.Prelude.{
  ℕ, ◌≡◌, refl, sym, ap, ◌∙◌, inl, inr, Bool, true, false, not, ◌||◌, Option, none, some, [], ◌∷◌,
  ◌++◌, append_assoc, arith, ◌==◌, if◌then◌else◌, Bool-cases,
}
use jt400_go.Prelude.Int.{ℤ, pos}
use jt400_go.Go.{Result, ok, err, panic, stuck, returns, Bytes}
use jt400_go.Database.Conn.{
  Session, DbError, Operation, op_rollback, op_set_autocommit, end_transaction, commit_or_rollback,
  restore_autocommit, set_auto_commit, end_request, autocommit_request, fn_rollback, commit,
  begin_tx, op_commit, level_ok, fn_commit, restored, rolled_back, ended_with, request_ok,
  no_transaction,
}
use jt400_go.Database.Conn.Calls.{request_ok-returns, request_ok_usable, request_ok_success}

module _ (decode_text : ℕ → Bytes → Bytes) where
  -- A transaction's end leaves no transaction, or a session that refuses every further request.
  abbrev pub Settled : Session × Result DbError (Unit {0}) → Type 0
  Settled t = (returns t.1 ≡ true) × ((not t.0.in_tx || t.0.broken) ≡ true)

  restored-Settled :
      (o : Option DbError) (t : Session × Result DbError (Unit {0}))
      → returns t.1 ≡ true
      → Settled (restored decode_text o t)
  unfolding restored
  restored-Settled none (s, ok u) h = ground arith
  restored-Settled (some e) (s, ok u) h = ground arith
  restored-Settled none (s, err e) h = ground arith
  restored-Settled (some e') (s, err e) h = ground arith
  restored-Settled o (s, panic) h = cc
  restored-Settled o (s, stuck) h = cc

  restore_autocommit-Settled :
      (s : Session) (o : Option DbError) → Settled (restore_autocommit decode_text s o)
  unfolding restore_autocommit set_auto_commit
  restore_autocommit-Settled s o = restored-Settled o _ (request_ok-returns decode_text s _ _)

  rolled_back-Settled :
      (e : DbError) (t : Session × Result DbError (Unit {0}))
      → returns t.1 ≡ true
      → Settled (rolled_back decode_text e t)
  unfolding rolled_back
  rolled_back-Settled e (s, ok u) h = restore_autocommit-Settled s (some e)
  rolled_back-Settled e (s, err e') h = ground arith
  rolled_back-Settled e (s, panic) h = cc
  rolled_back-Settled e (s, stuck) h = cc

  commit_or_rollback-returns :
      (s : Session) (function_id : ℕ) (op : Operation)
      → returns (commit_or_rollback decode_text s function_id op).1 ≡ true
  unfolding commit_or_rollback
  commit_or_rollback-returns s function_id op = request_ok-returns decode_text s op _

  ended_with-Settled :
      (function_id : ℕ) (t : Session × Result DbError (Unit {0}))
      → returns t.1 ≡ true
      → Settled (ended_with decode_text function_id t)
  unfolding ended_with
  ended_with-Settled function_id (s, ok u) h = restore_autocommit-Settled s none
  ended_with-Settled function_id (s, err e) h = elim (Bool-cases (function_id == fn_commit)) [
    | inl y ↦ rw y (
        rolled_back-Settled e (commit_or_rollback decode_text s fn_rollback op_rollback)
          (commit_or_rollback-returns s fn_rollback op_rollback))
    | inr n ↦ rw n (restore_autocommit-Settled s (some e))
  ]
  ended_with-Settled function_id (s, panic) h = cc
  ended_with-Settled function_id (s, stuck) h = cc

  end_transaction-started :
      (s : Session) (function_id : ℕ) (op : Operation)
      → s.in_tx ≡ true
      → end_transaction decode_text s function_id op
        ≡ ended_with decode_text function_id (commit_or_rollback decode_text s function_id op)
  unfolding end_transaction
  end_transaction-started s function_id op h =
      ap
        (λ b.
          if not b
          then (s, err no_transaction)
          else ended_with decode_text function_id (commit_or_rollback decode_text s function_id op))
        h

  -- Commit and Rollback on a session in a transaction return, and leave it out of the transaction or
  -- broken: in every environment, on every path of errors.
  pub end_transaction-Settled :
      (s : Session) (function_id : ℕ) (op : Operation)
      → s.in_tx ≡ true
      → Settled (end_transaction decode_text s function_id op)
  unfolding end_transaction
  end_transaction-Settled s function_id op h = rw (end_transaction-started s function_id op h) (
      ended_with-Settled function_id (commit_or_rollback decode_text s function_id op)
        (commit_or_rollback-returns s function_id op))

  restored_success :
      (t : Session × Result DbError (Unit {0})) (u : Unit {0})
      → (restored decode_text none t).1 ≡ ok u
      → (t.1 ≡ ok u)
        × ((restored decode_text none t).0.in_tx ≡ false)
        × ((restored decode_text none t).0.broken ≡ t.0.broken)
        × ((restored decode_text none t).0.closed ≡ t.0.closed)
        × ((restored decode_text none t).0.log ≡ t.0.log)
  unfolding restored
  restored_success (s, ok v) u h = (h, refl, refl, refl, refl)
  restored_success (s, err e) u h = cc
  restored_success (s, panic) u h = cc
  restored_success (s, stuck) u h = cc

  restore_autocommit_success :
      (s : Session) (u : Unit {0})
      → (restore_autocommit decode_text s none).1 ≡ ok u
      → ((restore_autocommit decode_text s none).0.log
          ≡ s.log ++ (autocommit_request true (pos 0) ∷ []))
        × ((restore_autocommit decode_text s none).0.in_tx ≡ false)
        × ((restore_autocommit decode_text s none).0.broken ≡ false)
        × ((restore_autocommit decode_text s none).0.closed ≡ false)
  unfolding restore_autocommit set_auto_commit
  restore_autocommit_success s u h =
      let req = autocommit_request true (pos 0) in
      let (sent, out, kept, still, same) =
        restored_success (request_ok decode_text s op_set_autocommit req) u h in
      let (c, b, b') = request_ok_success decode_text s op_set_autocommit req u sent in
      let (logged, (in_tx, closed, ids)) =
        request_ok_usable decode_text s op_set_autocommit req c b in
      (same ∙ logged, out, kept ∙ b', still ∙ (closed ∙ c))

  abbrev succeeds : Session × Result DbError (Unit {0}) → Bool
  succeeds (s, ok u) = true
  succeeds (s, _) = false

  restored-fails :
      (e : DbError) (t : Session × Result DbError (Unit {0}))
      → succeeds (restored decode_text (some e) t) ≡ false
  unfolding restored
  restored-fails e (s, ok u) = refl
  restored-fails e (s, err e') = refl
  restored-fails e (s, panic) = refl
  restored-fails e (s, stuck) = refl

  rolled_back-fails :
      (e : DbError) (t : Session × Result DbError (Unit {0}))
      → succeeds (rolled_back decode_text e t) ≡ false
  unfolding rolled_back restore_autocommit
  rolled_back-fails e (s, ok u) = restored-fails e (set_auto_commit decode_text s true (pos 0))
  rolled_back-fails e (s, err e') = refl
  rolled_back-fails e (s, panic) = refl
  rolled_back-fails e (s, stuck) = refl

  ended_with_success :
      (t : Session × Result DbError (Unit {0})) (u : Unit {0})
      → (ended_with decode_text fn_commit t).1 ≡ ok u
      → (t.1 ≡ ok u)
        × (ended_with decode_text fn_commit t ≡ restore_autocommit decode_text t.0 none)
  unfolding ended_with
  ended_with_success (s, ok v) u h = (refl, refl)
  ended_with_success (s, err e) u h =
      ground
        (arith, h, rolled_back-fails e (commit_or_rollback decode_text s fn_rollback op_rollback))
  ended_with_success (s, panic) u h = cc
  ended_with_success (s, stuck) u h = cc

  commit_started : (s : Session) (u : Unit {0}) → (commit decode_text s).1 ≡ ok u → s.in_tx ≡ true
  unfolding commit end_transaction
  commit_started s u h = elim (Bool-cases s.in_tx) [ inl y ↦ y | inr n ↦ ground (arith, h) ]

  -- A successful Commit sent exactly two requests, the commit and then the one that turns autocommit
  -- on again, and the session is usable (not closed and not broken) and in no transaction.
  pub commit_success :
      (s : Session) (u : Unit {0})
      → (commit decode_text s).1 ≡ ok u
      → ((commit decode_text s).0.log
          ≡ s.log ++ (end_request fn_commit ∷ autocommit_request true (pos 0) ∷ []))
        × ((commit decode_text s).0.in_tx ≡ false)
        × ((commit decode_text s).0.broken ≡ false)
        × ((commit decode_text s).0.closed ≡ false)
  unfolding commit commit_or_rollback
  commit_success s u h =
      let req = end_request fn_commit in
      let begun = end_transaction-started s fn_commit op_commit (commit_started s u h) in
      let t = commit_or_rollback decode_text s fn_commit op_commit in
      let (sent, rest) = ended_with_success t u (ap (λ t. t.1) (sym begun) ∙ h) in
      let path = begun ∙ rest in
      let (c, b, b') = request_ok_success decode_text s op_commit req u sent in
      let (log, out, kept, open_still) =
        restore_autocommit_success t.0 u (ap (λ t. t.1) (sym path) ∙ h) in
      rw path (
        log
            ∙ ap (λ l. l ++ (autocommit_request true (pos 0) ∷ []))
                (request_ok_usable decode_text s op_commit req c b).0
            ∙ append_assoc s.log (req ∷ []) (autocommit_request true (pos 0) ∷ []),
        out,
        kept,
        open_still,
      )

  -- Begin succeeds only outside a transaction and at a level from *CHG to *RR; it has then sent the
  -- request that turns autocommit off at this level, and no other.
  pub begin_tx_success :
      (s : Session) (level : ℤ) (u : Unit {0})
      → (begin_tx decode_text s level).1 ≡ ok u
      → (s.in_tx ≡ false)
        × (level_ok level ≡ true)
        × ((begin_tx decode_text s level).0.in_tx ≡ true)
        × ((begin_tx decode_text s level).0.log ≡ s.log ++ (autocommit_request false level ∷ []))
  unfolding begin_tx set_auto_commit
  begin_tx_success s level u h = ground (
    arith,
    h,
    request_ok_success decode_text s op_set_autocommit (autocommit_request false level) u,
    request_ok_usable decode_text s op_set_autocommit (autocommit_request false level),
  )
