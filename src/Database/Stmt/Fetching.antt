-- ===== src/Database/Stmt/Fetching.antt =====
-- The loop of Next: it ends after one fetch at most, and leaves a row to deliver_row.
use jt400_go.Prelude.{ℕ, suc, ◌+◌, ◌≡◌, refl, inl, inr, Bool, true, ◌||◌, Bool-cases, arith, ◌==◌}
use jt400_go.Go.{Result, ok, err, panic, stuck, returns}
use jt400_go.Database.Ccsid.{decode_server_text}
use jt400_go.Database.Value.{Platform}
use jt400_go.Database.Wire.{DbRequest, DbReply, failed, add_int, add_short, ors_reply}
use jt400_go.Database.Conn.{Session, DbError, new_request}
use jt400_go.Database.Conn.Calls.{db_call-returns}
use jt400_go.Database.Conn.Sends.{AtMost, db_call-AtMost}
use jt400_go.Database.Stmt.{
  World, Rows, Settings, Step, blocking_factor, fn_fetch, ors_result_data, on_session, ◌and_then◌,
}
use jt400_go.Database.Stmt.Cursor.{fetch, fetched, absorb_end, advance, has_row, take_reply}

-- Behind a fetch there is a row, or the end is known.
unfoldable settled : Rows → Bool
settled rs = has_row rs.block rs.next || rs.eof

fetched-settled : (rs : Rows) (rep : DbReply) → settled (fetched rs rep) ≡ true
unfolding settled fetched absorb_end
fetched-settled rs rep = ground arith

==_refl : (n : ℕ) → (n == n) ≡ true
==_refl n = ground arith

module _ (p : Platform) (o : Settings p) where
  open o use {block_size, registry}

  -- The request that a fetch for the Rows r sends.
  abbrev pub fetch_request : World → ℕ → DbRequest
  fetch_request w r =
      let st = w.stmts (w.cursors r).st in
      add_int
        (add_short (record (new_request fn_fetch (ors_reply + ors_result_data)) { rpb_id = st.id })
          0x380E 0)
        0x380C (blocking_factor block_size st.columns)

  -- What a fetch leaves: it returns, has sent its request at most, and settles the Rows if it succeeds.
  abbrev Fetched : World → ℕ → Step (Unit {0}) → Type 0
  Fetched w r t =
      (returns t.1 ≡ true)
      × AtMost w.session (fetch_request w r) t.0.session
      × (t.1 ≡ ok tt → settled (t.0.cursors r) ≡ true)

  take_reply-Fetched :
      (w : World) (r : ℕ) (t : Session × Result DbError DbReply)
      → returns t.1 ≡ true
      → AtMost w.session (fetch_request w r) t.0
      → Fetched w r (take_reply r (on_session w t))
  unfolding take_reply
  take_reply-Fetched w r (s, ok rep) h most = elim (Bool-cases (failed rep)) [
    | inl bad ↦ rw bad (refl, most, λ e. cc)
    | inr good ↦ rw (good, ==_refl r) (refl, most, λ e. fetched-settled (w.cursors r) rep)
  ]
  take_reply-Fetched w r (s, err e) h most = (refl, most, λ e'. cc)
  take_reply-Fetched w r (s, panic) h most = cc
  take_reply-Fetched w r (s, stuck) h most = cc

  fetch-Fetched : (w : World) (r : ℕ) → Fetched w r (fetch p o w r)
  unfolding fetch
  fetch-Fetched w r =
      let req = fetch_request w r in
      take_reply-Fetched w r _ (db_call-returns (decode_server_text registry) w.session req)
        (db_call-AtMost (decode_server_text registry) w.session req)

  -- A loop that starts with a row or at the end sends nothing more.
  advance-settled :
      (fuel : ℕ) (w : World) (r : ℕ)
      → settled (w.cursors r) ≡ true
      → (returns (advance p o (suc fuel) w r).1 ≡ true)
        × ((advance p o (suc fuel) w r).0 ≡ w)
        × ((advance p o (suc fuel) w r).1 ≡ ok tt
            → has_row (w.cursors r).block (w.cursors r).next ≡ true)
  unfolding advance settled
  advance-settled fuel w r h = elim (Bool-cases (has_row (w.cursors r).block (w.cursors r).next)) [
    | inl present ↦ rw present (refl, refl, λ e. refl)
    | inr absent ↦
        let over : (w.cursors r).eof ≡ true = ground (arith, h, absent) in
        rw (absent, over) (refl, refl, λ e. cc)
  ]

  -- What the loop leaves: it returns, has sent one fetch at most, and a row is there if it succeeds.
  abbrev Advanced : World → ℕ → Step (Unit {0}) → Type 0
  Advanced w r t =
      (returns t.1 ≡ true)
      × AtMost w.session (fetch_request w r) t.0.session
      × (t.1 ≡ ok tt → has_row (t.0.cursors r).block (t.0.cursors r).next ≡ true)

  behind_fetch :
      (fuel : ℕ) (w : World) (r : ℕ) (t : Step (Unit {0}))
      → Fetched w r t
      → Advanced w r (t and_then λ w' u. advance p o (suc fuel) w' r)
  behind_fetch fuel w r (w', ok u) f =
      let (back, same, row) = advance-settled fuel w' r (f.2 refl) in
      (back, rw same f.1, λ e. rw same (row e))
  behind_fetch fuel w r (w', err e) f = (refl, f.1, λ e'. cc)
  behind_fetch fuel w r (w', panic) f = cc
  behind_fetch fuel w r (w', stuck) f = cc

  advance-Advanced :
      (fuel : ℕ) (w : World) (r : ℕ) → Advanced w r (advance p o (suc (suc fuel)) w r)
  unfolding advance settled
  advance-Advanced fuel w r = elim (Bool-cases (has_row (w.cursors r).block (w.cursors r).next)) [
    | inl present ↦ rw present (refl, inl refl, λ e. present)
    | inr absent ↦ elim (Bool-cases (w.cursors r).eof) [
      | inl over ↦ rw (absent, over) (refl, inl refl, λ e. cc)
      | inr more ↦ rw (absent, more) (behind_fetch fuel w r (fetch p o w r) (fetch-Fetched w r))
    ]
  ]

  -- The loop of Next ends in every environment: with fuel for two rounds it returns, and it has handed
  -- on at most one request, the fetch of the next block.
  pub advance_ends :
      (fuel : ℕ) (w : World) (r : ℕ)
      → (returns (advance p o (suc (suc fuel)) w r).1 ≡ true)
        × AtMost w.session (fetch_request w r) (advance p o (suc (suc fuel)) w r).0.session
  advance_ends fuel w r = let a = advance-Advanced fuel w r in (a.0, a.1)

  -- If the loop of Next succeeds, the Rows has a block, and its next row lies in that block.
  pub advance_row :
      (fuel : ℕ) (w : World) (r : ℕ)
      → (advance p o (suc (suc fuel)) w r).1 ≡ ok tt
      → has_row
          ((advance p o (suc (suc fuel)) w r).0.cursors r).block
          ((advance p o (suc (suc fuel)) w r).0.cursors r).next
        ≡ true
  advance_row fuel w r h = (advance-Advanced fuel w r).2 h
