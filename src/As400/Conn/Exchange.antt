-- ===== src/As400/Conn/Exchange.antt =====
-- What an exchange does to the socket and to the connection on each of its ways out.
use jt400_go.Prelude.{
  refl, Option-cases, not, inl, inr, ap, ◌∙◌, append-nil, ◌++◌, ℕ, zero, suc, ◌+◌, ◌≤◌, ◌<◌, ◌≡◌,
  ◌⊎◌, Bool, true, false, Option, none, some, List, [], ◌∷◌, arith,
}
use jt400_go.Go.{Result, ok, err, returns, Bytes}
use jt400_go.As400.Conn.{
  Connection, Env, ConnError, Event, set_deadline, write, read, clear_deadline, next_correlation,
  expire, exchange_deadline, transfer, watched, under_deadline, exchange, send, call,
}
use jt400_go.As400.Datastream.{Request, Reply, encode}
use jt400_go.As400.Datastream.Laws.{read_reply-returns}
use jt400_go.As400.Conn.{context_done}
use jt400_go.As400.Conn.{set_io_deadline}
use jt400_go.Go.Outcome.{if-both}

-- The exchange's deadline is no later than the context's and than the timeout's, it is one of the
-- two, and there is none only if neither is set.
pub exchange_deadline_least :
    (c : Connection) (env : Env) (d t : ℕ)
    → (exchange_deadline c env ≡ some d → env.ctx_deadline ≡ some t → d ≤ t)
      × (exchange_deadline c env ≡ some d → 0 < c.io_timeout → d ≤ env.now + c.io_timeout)
      × (exchange_deadline c env ≡ some d
          → (env.ctx_deadline ≡ some d) ⊎ ((d ≡ env.now + c.io_timeout) × (0 < c.io_timeout)))
      × (exchange_deadline c env ≡ none → (env.ctx_deadline ≡ none) × (c.io_timeout ≡ 0))
unfolding exchange_deadline
exchange_deadline_least c env d t =
    (λ e h. ground arith, λ e h. ground arith, λ e. ground arith, λ e. ground arith)

-- What is written, and how many reads there are.
abbrev pub written : List Event → List Bytes
written [] = []
written (write w ∷ es) = w ∷ written es
written (_ ∷ es) = written es

abbrev pub reads : List Event → ℕ
reads [] = 0
reads (read ∷ es) = suc (reads es)
reads (_ ∷ es) = reads es

pub written-append : (es fs : List Event) → written (es ++ fs) ≡ written es ++ written fs
written-append [] fs = refl
written-append (write w ∷ es) fs = ap (λ (rest : List Bytes). w ∷ rest) (written-append es fs)
written-append (set_deadline t ∷ es) fs = written-append es fs
written-append (read ∷ es) fs = written-append es fs
written-append (clear_deadline ∷ es) fs = written-append es fs
written-append (expire ∷ es) fs = written-append es fs

-- The watcher writes and reads nothing.
written-watched : (o : Option ℕ) (es : List Event) → written (watched o es) ≡ written es
unfolding watched
written-watched none es = refl
written-watched (some zero) es = refl
written-watched (some (suc n)) [] = refl
written-watched (some (suc n)) (write w ∷ es) =
    ap (λ (rest : List Bytes). w ∷ rest) (written-watched (some n) es)
written-watched (some (suc n)) (set_deadline t ∷ es) = written-watched (some n) es
written-watched (some (suc n)) (read ∷ es) = written-watched (some n) es
written-watched (some (suc n)) (clear_deadline ∷ es) = written-watched (some n) es
written-watched (some (suc n)) (expire ∷ es) = written-watched (some n) es

reads-watched : (o : Option ℕ) (es : List Event) → reads (watched o es) ≡ reads es
unfolding watched
reads-watched none es = refl
reads-watched (some zero) es = refl
reads-watched (some (suc n)) [] = refl
reads-watched (some (suc n)) (write w ∷ es) = reads-watched (some n) es
reads-watched (some (suc n)) (set_deadline t ∷ es) = reads-watched (some n) es
reads-watched (some (suc n)) (read ∷ es) = ap suc (reads-watched (some n) es)
reads-watched (some (suc n)) (clear_deadline ∷ es) = reads-watched (some n) es
reads-watched (some (suc n)) (expire ∷ es) = reads-watched (some n) es

reads-cleared : (es : List Event) → reads (es ++ (clear_deadline ∷ [])) ≡ reads es
reads-cleared [] = refl
reads-cleared (write w ∷ es) = reads-cleared es
reads-cleared (set_deadline t ∷ es) = reads-cleared es
reads-cleared (read ∷ es) = ap suc (reads-cleared es)
reads-cleared (clear_deadline ∷ es) = reads-cleared es
reads-cleared (expire ∷ es) = reads-cleared es

-- An exchange is left before anything is done to the socket, or goes on as its transfer, with what is
-- done to the deadline beside and around it.
module _ (c : Connection) (env : Env) (req : Request) (want_reply : Bool) where
  abbrev pub AsTransfer : Connection × List Event × Result ConnError (Option Reply) → Type 0
  AsTransfer t =
      ((e : ConnError) × (t ≡ (c, [], err e)))
      ⊎ ((t.0 ≡ (transfer c env req want_reply).0)
          × (t.2 ≡ (transfer c env req want_reply).2)
          × (written t.1 ≡ written (transfer c env req want_reply).1)
          × (reads t.1 ≡ reads (transfer c env req want_reply).1))

  under_deadline-AsTransfer : (o : Option ℕ) → AsTransfer (under_deadline c env req want_reply o)
  unfolding under_deadline
  under_deadline-AsTransfer none =
      let es = (transfer c env req want_reply).1 in
      inr (refl, refl, written-watched env.canceled_at es, reads-watched env.canceled_at es)
  under_deadline-AsTransfer (some d) =
      let es = (transfer c env req want_reply).1 in
      let ws = watched env.canceled_at es in
      let cleared : written (ws ++ (clear_deadline ∷ [])) ≡ written es =
        written-append ws (clear_deadline ∷ [])
        ∙ (append-nil (written ws) ∙ written-watched env.canceled_at es) in
      if-both AsTransfer (not env.set_deadline_works) _ _ (inl (set_io_deadline, refl))
        (inr (refl, refl, cleared, reads-cleared ws ∙ reads-watched env.canceled_at es))

  pub exchange-AsTransfer : AsTransfer (exchange c env req want_reply)
  unfolding exchange
  exchange-AsTransfer = elim (Option-cases env.ctx_before) [
    | inr (e, early) ↦ inl (context_done e, rw early refl)
    | inl on ↦ rw on (under_deadline-AsTransfer (exchange_deadline c env))
  ]

pub transfer_writes :
    (c : Connection) (env : Env) (req : Request) (want_reply : Bool)
    → (written (transfer c env req want_reply).1
        ≡ encode (record req { correlation = next_correlation c.correlation }) ∷ [])
      × ((transfer c env req want_reply).0.correlation ≡ next_correlation c.correlation)
      × (returns (transfer c env req want_reply).2 ≡ true)
unfolding transfer
transfer_writes c env req want_reply = ground (arith, read_reply-returns env.incoming)

-- The IDs and the bytes on the wire: an exchange that fails before the write leaves the counter,
-- and any other counts once and writes exactly the request under the new ID.
pub exchange_writes :
    (c : Connection) (env : Env) (req : Request) (want_reply : Bool)
    → ((written (exchange c env req want_reply).1 ≡ [])
        × ((exchange c env req want_reply).0.correlation ≡ c.correlation)
        × (returns (exchange c env req want_reply).2 ≡ true))
      ⊎ ((written (exchange c env req want_reply).1
            ≡ encode (record req { correlation = next_correlation c.correlation }) ∷ [])
          × ((exchange c env req want_reply).0.correlation ≡ next_correlation c.correlation)
          × (returns (exchange c env req want_reply).2 ≡ true))
exchange_writes c env req want_reply = elim (exchange-AsTransfer c env req want_reply) [
  | inl (e, left) ↦ inl (rw left (refl, refl, refl))
  | inr (kept, gave, wrote, read_on) ↦
      let (sent, counted, back) = transfer_writes c env req want_reply in
      inr (
        wrote ∙ sent,
        ap (λ (k : Connection). k.correlation) kept ∙ counted,
        ap (λ (r : Result ConnError (Option Reply)). returns r) gave ∙ back,
      )
]

-- Send never reads, so the reply to a request that has one would stay queued.
pub send_no_read : (c : Connection) (env : Env) (req : Request) → reads (send c env req).1 ≡ 0
unfolding send transfer
send_no_read c env req = elim (exchange-AsTransfer c env req false) [
  | inl (e, left) ↦ rw left refl
  | inr (kept, gave, wrote, read_on) ↦ read_on ∙ ground arith
]

-- A reply or an error.
abbrev pub answers : Result ConnError (Option Reply) → Bool
answers (ok (some reply)) = true
answers (err e) = true
answers _ = false

-- An exchange that wants a reply ends with one or with an error.
pub call-answers : (c : Connection) (env : Env) (req : Request) → answers (call c env req).2 ≡ true
unfolding call transfer
call-answers c env req = elim (exchange-AsTransfer c env req true) [
  | inl (e, left) ↦ rw left refl
  | inr (kept, gave, wrote, read_on) ↦
      ap answers gave ∙ ground (arith, read_reply-returns env.incoming)
]

-- An exchange that wants none ends with none or with an error.
pub send-returns : (c : Connection) (env : Env) (req : Request) → returns (send c env req).2 ≡ true
unfolding send
send-returns c env req = elim (exchange_writes c env req false) [ inl h ↦ h.2 | inr h ↦ h.2 ]
