-- ===== src/As400/Service/Laws.antt =====
-- What one request of a service writes, and what it gives.
use jt400_go.Prelude.{◌≡◌, refl, ap, ◌⊎◌, inl, inr, true, Option, none, some, [], ◌∷◌, arith}
use jt400_go.Go.{Result, ok, err, panic, stuck, ◌>>=◌, returns, Bytes}
use jt400_go.Go.Outcome.{returns-cases, >>=-eq-ok}
use jt400_go.As400.Conn.{Connection, Env, ConnError, call, exchange, transfer, next_correlation}
use jt400_go.As400.Conn.Exchange.{written, answers, call-answers}
use jt400_go.As400.Datastream.{Request, Reply, read_reply}
use jt400_go.As400.Logon.Frames.{frame, call-at_most, call-written}
use jt400_go.As400.Service.{Exchanged, answer_of, ask, asked}
use jt400_go.As400.Service.{◌followed_by◌}

module _ {E : Type 0} where
  pub answer_of-returns :
      (r : Result ConnError (Option Reply)) (io : ConnError → E)
      → answers r ≡ true
      → returns (answer_of r io) ≡ true
  answer_of-returns (ok none) io h = cc
  answer_of-returns (ok (some reply)) io h = refl
  answer_of-returns (err e) io h = refl
  answer_of-returns panic io h = cc
  answer_of-returns stuck io h = cc

  pub answer_of-some :
      (r : Result ConnError (Option Reply)) (io : ConnError → E) (reply : Reply)
      → answer_of r io ≡ ok reply
      → r ≡ ok (some reply)
  answer_of-some (ok none) io reply h = cc
  answer_of-some (ok (some other)) io reply h = cc
  answer_of-some (err e) io reply h = cc
  answer_of-some panic io reply h = cc
  answer_of-some stuck io reply h = cc

  module _ {A : Type 0} (io : ConnError → E) (parse : Reply → Result E A) (c : Connection)
      (env : Env) where
    -- A request is written at most once.
    pub ask-at_most :
        (req : Request)
        → (written (ask io parse c env req).1 ≡ [])
          ⊎ (written (ask io parse c env req).1 ≡ frame (next_correlation c.correlation) req ∷ [])
    unfolding ask
    ask-at_most req = call-at_most c env req

    -- It ends with a value or an error, if the parser does on every reply.
    pub ask-returns :
        ((reply : Reply) → returns (parse reply) ≡ true)
        → (req : Request) → returns (ask io parse c env req).2 ≡ true
    unfolding ask
    ask-returns total req =
        elim (returns-cases (answer_of (call c env req).2 io)
          (answer_of-returns (call c env req).2 io (call-answers c env req))) [
            | inl (reply, e) ↦ rw e (total reply)
            | inr (x, e) ↦ rw e refl
          ]

    -- A value comes from a reply to the request, which was written.
    pub ask_ok :
        (req : Request) {a : A}
        → (ask io parse c env req).2 ≡ ok a
        → (reply : Reply) × ((call c env req).2 ≡ ok (some reply))
          × (parse reply ≡ ok a)
          × (written (ask io parse c env req).1 ≡ frame (next_correlation c.correlation) req ∷ [])
    unfolding ask
    ask_ok req h =
        let (reply, e, made) = >>=-eq-ok (answer_of (call c env req).2 io) parse h in
        let replied = answer_of-some (call c env req).2 io reply e in
        (reply, replied, made, (call-written c env req reply replied).0)

    -- Nothing is written, or the request as it was built, once.
    pub asked-at_most :
        (m : Result E Request)
        → (written (asked io m parse c env).1 ≡ [])
          ⊎ ((req : Request) × (m ≡ ok req)
              × (written (asked io m parse c env).1
                  ≡ frame (next_correlation c.correlation) req ∷ []))
    unfolding asked
    asked-at_most (ok req) = elim (ask-at_most req) [
      | inl nothing ↦ inl nothing
      | inr one ↦ inr (req, refl, one)
    ]
    asked-at_most (err e) = inl refl
    asked-at_most panic = inl refl
    asked-at_most stuck = inl refl

    -- A value comes from a reply to the request that was built, and that was written.
    pub asked_ok :
        (m : Result E Request) {a : A}
        → (asked io m parse c env).2 ≡ ok a
        → (req : Request) × (reply : Reply) × (m ≡ ok req)
          × ((call c env req).2 ≡ ok (some reply))
          × (parse reply ≡ ok a)
          × (written (asked io m parse c env).1 ≡ frame (next_correlation c.correlation) req ∷ [])
    unfolding asked
    asked_ok (ok req) h =
        let (reply, came, read, wrote) = ask_ok req h in (req, reply, refl, came, read, wrote)
    asked_ok (err e) h = cc
    asked_ok panic h = cc
    asked_ok stuck h = cc

    pub asked-returns :
        ((reply : Reply) → returns (parse reply) ≡ true)
        → (m : Result E Request) → returns m ≡ true
        → returns (asked io m parse c env).2 ≡ true
    unfolding asked
    asked-returns total (ok req) h = ask-returns total req
    asked-returns total (err e) h = refl
    asked-returns total panic h = h
    asked-returns total stuck h = h

-- Nothing of the environment stops an exchange.
abbrev pub Works : Env → Type 0
Works env = (env.ctx_before ≡ none) × (env.set_deadline_works ≡ true) × (env.write_works ≡ true)

-- Where nothing stops it, a call writes its request and gives the frame that comes in.
pub call-Works :
    (c : Connection) (env : Env) (req : Request) (reply : Reply) (rest : Bytes)
    → Works env
    → read_reply env.incoming ≡ ok (reply, rest)
    → (call c env req).2 ≡ ok (some reply)
unfolding call exchange transfer
call-Works c env req reply rest works incoming = ground (arith, works, incoming)

-- So does a request that was built: its answer is that frame, as it is parsed.
pub asked-Works :
    {E A : Type 0} (io : ConnError → E) (m : Result E Request) (parse : Reply → Result E A)
    (c : Connection) (env : Env) (req : Request) (reply : Reply) (rest : Bytes)
    → m ≡ ok req
    → Works env
    → read_reply env.incoming ≡ ok (reply, rest)
    → (written (asked io m parse c env).1 ≡ frame (next_correlation c.correlation) req ∷ [])
      × ((asked io m parse c env).2 ≡ parse reply)
unfolding asked ask
asked-Works io m parse c env req reply rest built works incoming =
    let gave = call-Works c env req reply rest works incoming in
    rw built (
      (call-written c env req reply gave).0,
      ap (λ (r : Result ConnError (Option Reply)). answer_of r io >>= parse) gave,
    )

-- Exchanges in a row end with a value or an error if each does.
pub followed_by-returns :
    {E A B : Type 0} (t : Exchanged E A) (f : Connection → A → Exchanged E B)
    → returns t.2 ≡ true
    → ((c : Connection) (a : A) → returns (f c a).2 ≡ true)
    → returns (t followed_by f).2 ≡ true
unfolding ◌followed_by◌
followed_by-returns (c, events, ok a) f h k = k c a
followed_by-returns (c, events, err e) f h k = refl
followed_by-returns (c, events, panic) f h k = cc
followed_by-returns (c, events, stuck) f h k = cc
