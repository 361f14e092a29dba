-- ===== src/As400/Conn/Deadline.antt =====
-- The deadline of the socket during an exchange and behind it, with the watcher of a cancellation.
use jt400_go.Prelude.{
  ℕ, zero, suc, ◌≡◌, refl, sym, ◌⊎◌, inl, inr, Bool, true, false, not, Option, none, some, List, [],
  ◌∷◌, ◌++◌, Option-cases, if◌then◌else◌,
}
use jt400_go.Go.{Result}
use jt400_go.Go.Outcome.{if-both}
use jt400_go.As400.Conn.{
  Connection, Env, ConnError, Event, set_deadline, write, read, clear_deadline, expire,
  exchange_deadline, transfer, watched, under_deadline, exchange,
}
use jt400_go.As400.Datastream.{Request, Reply}

-- The deadline that is set on a socket: a time of the clock, or the one long past.
pub data Limit : Type 0 where
  until : ℕ → Limit
  past : Limit

abbrev pub limit_of : Option ℕ → Option Limit
limit_of none = none
limit_of (some d) = some (until d)

-- The deadline of the socket behind some events.
abbrev pub limit_behind : Option Limit → List Event → Option Limit
limit_behind l [] = l
limit_behind l (set_deadline d ∷ es) = limit_behind (some (until d)) es
limit_behind l (clear_deadline ∷ es) = limit_behind none es
limit_behind l (expire ∷ es) = limit_behind (some past) es
limit_behind l (write w ∷ es) = limit_behind l es
limit_behind l (read ∷ es) = limit_behind l es

-- Each write and read happens while the deadline of the socket is `bound` or past.
abbrev pub Bounded : Option Limit → Option Limit → List Event → Type 0
Bounded bound l [] = Unit {0}
Bounded bound l (set_deadline d ∷ es) = Bounded bound (some (until d)) es
Bounded bound l (clear_deadline ∷ es) = Bounded bound none es
Bounded bound l (expire ∷ es) = Bounded bound (some past) es
Bounded bound l (write w ∷ es) = ((l ≡ bound) ⊎ (l ≡ some past)) × Bounded bound l es
Bounded bound l (read ∷ es) = ((l ≡ bound) ⊎ (l ≡ some past)) × Bounded bound l es

-- Whether the watcher has expired the deadline.
abbrev pub expires : List Event → Bool
expires [] = false
expires (expire ∷ es) = true
expires (_ ∷ es) = expires es

-- What is left of the deadline behind an exchange: nothing if it had one, and otherwise the past one
-- if the watcher has set it.
abbrev pub left_over : Option ℕ → Bool → Option Limit
left_over (some d) expired = none
left_over none expired = if expired then some past else none

-- Events that are writes and reads.
abbrev Plain : List Event → Type 0
Plain [] = Unit {0}
Plain (write w ∷ es) = Plain es
Plain (read ∷ es) = Plain es
Plain (_ ∷ es) = ⊥

transfer-Plain :
    (c : Connection) (env : Env) (req : Request) (want_reply : Bool)
    → Plain (transfer c env req want_reply).1
unfolding transfer
transfer-Plain c env req want_reply =
    if-both (λ (t : Connection × List Event × Result ConnError (Option Reply)). Plain t.1)
      (not env.write_works) _ _ tt
      (if-both (λ (t : Connection × List Event × Result ConnError (Option Reply)). Plain t.1)
        (not want_reply) _ _ tt tt)

module _ (bound : Option Limit) where
  Plain-Bounded :
      (l : Option Limit) (es : List Event)
      → ((l ≡ bound) ⊎ (l ≡ some past))
      → Plain es
      → Bounded bound l es
  Plain-Bounded l [] h k = tt
  Plain-Bounded l (write w ∷ es) h k = (h, Plain-Bounded l es h k)
  Plain-Bounded l (read ∷ es) h k = (h, Plain-Bounded l es h k)
  Plain-Bounded l (set_deadline d ∷ es) h k = absurd k
  Plain-Bounded l (clear_deadline ∷ es) h k = absurd k
  Plain-Bounded l (expire ∷ es) h k = absurd k

  -- The watcher's deadline only makes them fail earlier.
  watched-Bounded : (o : Option ℕ) (es : List Event) → Plain es → Bounded bound bound (watched o es)
  unfolding watched
  watched-Bounded none es k = Plain-Bounded bound es (inl refl) k
  watched-Bounded (some zero) es k = Plain-Bounded (some past) es (inr refl) k
  watched-Bounded (some (suc n)) [] k = tt
  watched-Bounded (some (suc n)) (write w ∷ es) k = (inl refl, watched-Bounded (some n) es k)
  watched-Bounded (some (suc n)) (read ∷ es) k = (inl refl, watched-Bounded (some n) es k)
  watched-Bounded (some (suc n)) (set_deadline d ∷ es) k = absurd k
  watched-Bounded (some (suc n)) (clear_deadline ∷ es) k = absurd k
  watched-Bounded (some (suc n)) (expire ∷ es) k = absurd k

  cleared-Bounded :
      (l : Option Limit) (es : List Event)
      → Bounded bound l es
      → Bounded bound l (es ++ (clear_deadline ∷ []))
  cleared-Bounded l [] k = tt
  cleared-Bounded l (write w ∷ es) k = (k.0, cleared-Bounded l es k.1)
  cleared-Bounded l (read ∷ es) k = (k.0, cleared-Bounded l es k.1)
  cleared-Bounded l (set_deadline d ∷ es) k = cleared-Bounded (some (until d)) es k
  cleared-Bounded l (clear_deadline ∷ es) k = cleared-Bounded none es k
  cleared-Bounded l (expire ∷ es) k = cleared-Bounded (some past) es k

Plain-limit : (l : Option Limit) (es : List Event) → Plain es → limit_behind l es ≡ l
Plain-limit l [] k = refl
Plain-limit l (write w ∷ es) k = Plain-limit l es k
Plain-limit l (read ∷ es) k = Plain-limit l es k
Plain-limit l (set_deadline d ∷ es) k = absurd k
Plain-limit l (clear_deadline ∷ es) k = absurd k
Plain-limit l (expire ∷ es) k = absurd k

Plain-quiet : (es : List Event) → Plain es → expires es ≡ false
Plain-quiet [] k = refl
Plain-quiet (write w ∷ es) k = Plain-quiet es k
Plain-quiet (read ∷ es) k = Plain-quiet es k
Plain-quiet (set_deadline d ∷ es) k = absurd k
Plain-quiet (clear_deadline ∷ es) k = absurd k
Plain-quiet (expire ∷ es) k = absurd k

watched-limit :
    (o : Option ℕ) (es : List Event)
    → Plain es
    → limit_behind none (watched o es) ≡ left_over none (expires (watched o es))
unfolding watched
watched-limit none es k = rw (Plain-limit none es k, Plain-quiet es k) refl
watched-limit (some zero) es k = Plain-limit (some past) es k
watched-limit (some (suc n)) [] k = refl
watched-limit (some (suc n)) (write w ∷ es) k = watched-limit (some n) es k
watched-limit (some (suc n)) (read ∷ es) k = watched-limit (some n) es k
watched-limit (some (suc n)) (set_deadline d ∷ es) k = absurd k
watched-limit (some (suc n)) (clear_deadline ∷ es) k = absurd k
watched-limit (some (suc n)) (expire ∷ es) k = absurd k

cleared-limit :
    (l : Option Limit) (es : List Event) → limit_behind l (es ++ (clear_deadline ∷ [])) ≡ none
cleared-limit l [] = refl
cleared-limit l (write w ∷ es) = cleared-limit l es
cleared-limit l (read ∷ es) = cleared-limit l es
cleared-limit l (set_deadline d ∷ es) = cleared-limit (some (until d)) es
cleared-limit l (clear_deadline ∷ es) = cleared-limit none es
cleared-limit l (expire ∷ es) = cleared-limit (some past) es

module _ (c : Connection) (env : Env) (req : Request) (want_reply : Bool) where
  abbrev Kept : Option ℕ → Connection × List Event × Result ConnError (Option Reply) → Type 0
  Kept o t = Bounded (limit_of o) none t.1 × (limit_behind none t.1 ≡ left_over o (expires t.1))

  under_deadline-Kept : (o : Option ℕ) → Kept o (under_deadline c env req want_reply o)
  unfolding under_deadline
  under_deadline-Kept none =
      let es = (transfer c env req want_reply).1 in
      let plain = transfer-Plain c env req want_reply in
      (watched-Bounded none env.canceled_at es plain, watched-limit env.canceled_at es plain)
  under_deadline-Kept (some d) =
      let ws = watched env.canceled_at (transfer c env req want_reply).1 in
      let held =
        watched-Bounded (some (until d)) env.canceled_at (transfer c env req want_reply).1
          (transfer-Plain c env req want_reply) in
      if-both (Kept (some d)) (not env.set_deadline_works) _ _ (tt, refl)
        (
          cleared-Bounded (some (until d)) (some (until d)) ws held,
          cleared-limit (some (until d)) ws,
        )

  left_over-none : (o : Option ℕ) → left_over o false ≡ none
  left_over-none none = refl
  left_over-none (some d) = refl

  -- On every way out of an exchange on a socket without a deadline, each write and read stood under the
  -- exchange's deadline, if it has one, or under the past one that the watcher sets. Behind it the
  -- socket has no deadline, except that without a deadline of the exchange the past one stays if the
  -- watcher has set it.
  pub exchange-Bounded :
      Bounded (limit_of (exchange_deadline c env)) none (exchange c env req want_reply).1
      × (limit_behind none (exchange c env req want_reply).1
          ≡ left_over (exchange_deadline c env) (expires (exchange c env req want_reply).1))
  unfolding exchange
  exchange-Bounded = elim (Option-cases env.ctx_before) [
    | inr (e, early) ↦ rw early (tt, sym (left_over-none (exchange_deadline c env)))
    | inl on ↦ rw on (under_deadline-Kept (exchange_deadline c env))
  ]
