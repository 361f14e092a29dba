-- ===== src/Database/Conn/Calls.antt =====
-- The requests of a connection: when one is sent, and what a failure leaves.
use jt400_go.Prelude.{
  ℕ, ◌+◌, ◌≡◌, refl, ◌∙◌, inl, inr, Bool, true, false, not, ◌||◌, Option, none, some, [], ◌∷◌, ◌++◌,
  arith, if◌then◌else◌, Bool-cases,
}
use jt400_go.Go.{Result, ok, err, panic, stuck, returns, Bytes}
use jt400_go.As400.Conn.{ConnError, call}
use jt400_go.As400.Conn.Exchange.{answers, call-answers}
use jt400_go.As400.Datastream.{Reply}
use jt400_go.Database.Wire.{DbRequest, DbReply, encode_request}
use jt400_go.Database.Wire.Replies.{parse_reply-returns}
use jt400_go.Database.Conn.{
  Session, DbError, Operation, err_closed, err_conn_broken, usable, db_call, request_ok, parsed,
  answered, check_reply,
}

-- The part of a session that its requests leave alone.
abbrev pub SameTransaction : Session → Session → Type 0
SameTransaction s s' = (s'.in_tx ≡ s.in_tx) × (s'.closed ≡ s.closed) × (s'.ids ≡ s.ids)

-- A closed or a broken session.
abbrev pub Unusable : Session → Type 0
Unusable s = (s.closed || s.broken) ≡ true

-- One request was handed on, and the session is broken if `bad`.
abbrev pub Handed : Session → DbRequest → Session → Bool → Type 0
Handed s req s' bad =
    (s'.log ≡ s.log ++ (req ∷ []))
    × (s'.step ≡ s.step + 1)
    × (s'.broken ≡ bad)
    × SameTransaction s s'

-- A request that ended: the session is broken exactly if it ended with an error.
abbrev pub ended : {A : Type 0} → Session × Result DbError A → Bool
ended (s, ok a) = not s.broken
ended (s, err e) = s.broken
ended (s, panic) = false
ended (s, stuck) = false

-- The reply is looked at after the request: the session stays as the request left it.
request_ok-ended :
    (op : Operation) (t : Session × Result DbError DbReply)
    → returns t.1 ≡ true
    → (returns (check_reply op t).1 ≡ true) × ((check_reply op t).0 ≡ t.0)
unfolding check_reply
request_ok-ended op (s, ok rep) h = ground arith
request_ok-ended op (s, err e) h = (refl, refl)
request_ok-ended op (s, panic) h = (h, refl)
request_ok-ended op (s, stuck) h = (h, refl)

ended-returns : {A : Type 0} (t : Session × Result DbError A) → ended t ≡ true → returns t.1 ≡ true
ended-returns (s, ok a) h = refl
ended-returns (s, err e) h = refl
ended-returns (s, panic) h = h
ended-returns (s, stuck) h = h

check_reply_success :
    (op : Operation) (t : Session × Result DbError DbReply) (u : Unit {0})
    → (check_reply op t).1 ≡ ok u
    → (ended t ≡ true → (check_reply op t).0.broken ≡ false) × (rep : DbReply) × (t.1 ≡ ok rep)
unfolding check_reply
check_reply_success op (s, ok rep) u h = (λ e. ground arith, rep, refl)
check_reply_success op (s, err e) u h = cc
check_reply_success op (s, panic) u h = cc
check_reply_success op (s, stuck) u h = cc

module _ (decode_text : ℕ → Bytes → Bytes) where
  answered-ended :
      (s : Session) (raw : Result ConnError (Option Reply))
      → answers raw ≡ true
      → s.broken ≡ false
      → ended (answered decode_text s raw) ≡ true
  unfolding answered parsed
  answered-ended s (err e) h b = refl
  answered-ended s panic h b = cc
  answered-ended s stuck h b = cc
  answered-ended s (ok none) h b = cc
  answered-ended s (ok (some reply)) h b = ground (arith, parse_reply-returns decode_text reply)

  answered_same :
      (s : Session) (raw : Result ConnError (Option Reply))
      → SameTransaction s (answered decode_text s raw).0
        × ((answered decode_text s raw).0.log ≡ s.log)
        × ((answered decode_text s raw).0.step ≡ s.step)
  unfolding answered parsed
  answered_same s raw = ground arith

  -- A closed or broken session refuses every request and hands none on.
  pub db_call_unusable :
      (s : Session) (req : DbRequest)
      → (s.closed || s.broken) ≡ true
      → ((db_call decode_text s req).0 ≡ s)
        × ((db_call decode_text s req).1
            ≡ (if s.closed then err err_closed else err err_conn_broken))
  unfolding db_call usable
  db_call_unusable s req h = ground arith

  -- The session after a request was handed on.
  abbrev pub handed : Session → DbRequest → Session
  handed s req = record s {
    link = (call s.link (s.env s.step) (encode_request req)).0;
    step = s.step + 1;
    log = s.log ++ (req ∷ []);
  }

  pub db_call-answered :
      (s : Session) (req : DbRequest)
      → s.closed ≡ false
      → s.broken ≡ false
      → db_call decode_text s req
        ≡ answered decode_text (handed s req) (call s.link (s.env s.step) (encode_request req)).2
  unfolding db_call usable
  db_call-answered s req c b = ground arith

  -- A usable session hands a request on once and keeps its transaction and its handles; the request
  -- ends with a reply or an error, and the session is broken exactly after an error.
  pub db_call_usable :
      (s : Session) (req : DbRequest)
      → s.closed ≡ false
      → s.broken ≡ false
      → (ended (db_call decode_text s req) ≡ true)
        × ((db_call decode_text s req).0.log ≡ s.log ++ (req ∷ []))
        × ((db_call decode_text s req).0.step ≡ s.step + 1)
        × SameTransaction s (db_call decode_text s req).0
  unfolding db_call usable
  db_call_usable s req c b =
      let same = answered_same (handed s req) (call s.link (s.env s.step) (encode_request req)).2 in
      rw (db_call-answered s req c b) (
        answered-ended (handed s req) _ (call-answers s.link (s.env s.step) (encode_request req)) b,
        same.1,
        same.2,
        same.0,
      )

  pub db_call-returns :
      (s : Session) (req : DbRequest) → returns (db_call decode_text s req).1 ≡ true
  db_call-returns s req = elim (Bool-cases (s.closed || s.broken)) [
    | inl bad ↦ rw (db_call_unusable s req bad).1 (ground arith)
    | inr good ↦
        ended-returns (db_call decode_text s req)
          (db_call_usable s req (ground arith) (ground arith)).0
  ]

  -- A request with its reply looked at always returns, on every session and in every environment.
  pub request_ok-returns :
      (s : Session) (op : Operation) (req : DbRequest)
      → returns (request_ok decode_text s op req).1 ≡ true
  unfolding request_ok
  request_ok-returns s op req = (request_ok-ended op _ (db_call-returns s req)).0

  -- On a usable session it is handed on once.
  pub request_ok_usable :
      (s : Session) (op : Operation) (req : DbRequest)
      → s.closed ≡ false
      → s.broken ≡ false
      → ((request_ok decode_text s op req).0.log ≡ s.log ++ (req ∷ []))
        × SameTransaction s (request_ok decode_text s op req).0
  unfolding request_ok
  request_ok_usable s op req c b =
      let state = (request_ok-ended op (db_call decode_text s req) (db_call-returns s req)).1 in
      let facts = db_call_usable s req c b in rw state (facts.1, facts.3)

  -- It succeeds only on a session that was usable, and leaves it so.
  pub request_ok_success :
      (s : Session) (op : Operation) (req : DbRequest) (u : Unit {0})
      → (request_ok decode_text s op req).1 ≡ ok u
      → (s.closed ≡ false)
        × (s.broken ≡ false)
        × ((request_ok decode_text s op req).0.broken ≡ false)
  unfolding request_ok
  request_ok_success s op req u h =
      let (kept, rep, replied) = check_reply_success op (db_call decode_text s req) u h in
      elim (Bool-cases (s.closed || s.broken)) [
        | inl bad ↦ ground (arith, (db_call_unusable s req bad).1, replied)
        | inr good ↦ (
          ground arith,
          ground arith,
          kept (db_call_usable s req (ground arith) (ground arith)).0,
        )
      ]

  -- On a session that is closed or broken, it does nothing.
  pub request_ok_unusable :
      (s : Session) (op : Operation) (req : DbRequest)
      → (s.closed || s.broken) ≡ true
      → ((request_ok decode_text s op req).0 ≡ s)
  unfolding request_ok
  request_ok_unusable s op req h =
      (request_ok-ended op _ (db_call-returns s req)).1 ∙ (db_call_unusable s req h).0
