-- ===== src/As400/Conn.antt =====
-- as400/conn.go: the correlation counter and one exchange on a connection.
-- The environment of an exchange (the context, the clock, the network) is a value: what each of
-- its parts answers. A time is a number, `none` is the zero time.Time. The mutex is not state of the
-- model. The watcher goroutine is an event between the operations of the transfer; an operation that
-- it makes fail, in this exchange or with a deadline that it left in a later one, is one that the
-- environment makes fail.
pub mod Counter
pub mod Exchange
pub mod Deadline
use jt400_go.Prelude.{
  ℕ, zero, suc, ◌+◌, ◌%◌, ◌^◌, Bool, true, false, not, Option, none, some, List, [], ◌∷◌, ◌++◌, ltb,
  ◌==◌, if◌then◌else◌,
}
use jt400_go.Go.{Result, ok, err, panic, stuck, Bytes}
use jt400_go.As400.Error.{WireError}
use jt400_go.As400.Datastream.{Request, Reply, encode, read_reply}

pub record Connection : Type 0 where
  pub correlation : ℕ
  pub io_timeout : ℕ

-- ctx.Err()
pub data CtxError : Type 0 where
  canceled deadline_exceeded : CtxError

-- What cuts an operation short, as wrapIOError reports it: the context, or the network's own error.
pub data Cause : Type 0 where
  by_context : CtxError → Cause
  by_network : Cause

pub data ConnError : Type 0 where
  context_done : CtxError → ConnError
  set_io_deadline : ConnError
  write_request : Cause → ConnError
  read_reply_failed : Cause → ConnError

-- `ctx_before` and `ctx_after` are ctx.Err() at the start and when an operation failed. `canceled_at` is
-- the number of operations on the socket behind which the watcher sees ctx.Done(), none where it does
-- not, or where ctx.Done() is nil.
pub record Env : Type 0 where
  pub ctx_before : Option CtxError
  pub ctx_after : Option CtxError
  pub ctx_deadline : Option ℕ
  pub now : ℕ
  pub now_after : ℕ
  pub set_deadline_works : Bool
  pub canceled_at : Option ℕ
  pub write_works : Bool
  pub incoming : Bytes

-- What the exchange does to the socket; a SetDeadline that fails does nothing. `expire` is the
-- watcher's SetDeadline(time.Unix(1, 0)).
pub data Event : Type 0 where
  set_deadline : ℕ → Event
  write : Bytes → Event
  read : Event
  clear_deadline : Event
  expire : Event

-- nextCorrelation: c.correlation++ on a uint32, and 1 for 0.
unfoldable pub next_correlation : ℕ → ℕ
next_correlation c = let next = (c + 1) % 2 ^ 32 in if next == 0 then 1 else next

-- The deadline of the exchange: the earlier one of the timeout's and the context's.
unfoldable pub exchange_deadline : Connection → Env → Option ℕ
exchange_deadline c env =
    let by_timeout : Option ℕ =
      if ltb 0 c.io_timeout then some (env.now + c.io_timeout) else none in
    elim env.ctx_deadline [
      | none ↦ by_timeout
      | some d ↦ elim by_timeout [ none ↦ some d | some t ↦ if ltb d t then some d else some t ]
    ]

-- wrapIOError
unfoldable pub io_cause : Env → Cause
io_cause env = elim env.ctx_after [
  | some e ↦ by_context e
  | none ↦ elim env.ctx_deadline [
    | none ↦ by_network
    | some d ↦ if not (ltb env.now_after d) then by_context deadline_exceeded else by_network
  ]
]

-- From the assignment of the correlation on: the connection after it, the events, and the result,
-- `none` where no reply is wanted.
unfoldable pub transfer :
    Connection → Env → Request → Bool → Connection × List Event × Result ConnError (Option Reply)
unfolding next_correlation io_cause
transfer c env req want_reply =
    let id = next_correlation c.correlation in
    let c' = record c { correlation = id } in
    let sent = write (encode (record req { correlation = id })) in
    if not env.write_works
    then (c', sent ∷ [], err (write_request (io_cause env)))
    else if not want_reply
    then (c', sent ∷ [], ok none)
    else (
      c',
      sent ∷ read ∷ [],
      elim (read_reply env.incoming) [
        | ok (reply, rest) ↦ ok (some reply)
        | err e ↦ err (read_reply_failed (io_cause env))
        | panic ↦ panic
        | stuck ↦ stuck
      ],
    )

-- The watcher, which runs beside the operations of the transfer: behind so many of them it expires the
-- deadline. It is stopped, and waited for, before the deferred SetDeadline.
unfoldable pub watched : Option ℕ → List Event → List Event
watched none es = es
watched (some zero) es = expire ∷ es
watched (some (suc n)) [] = []
watched (some (suc n)) (e ∷ es) = e ∷ watched (some n) es

-- exchange from its deadline on. The deferred SetDeadline(time.Time{}) runs on every way out behind the
-- one that succeeds.
unfoldable pub under_deadline :
    Connection
    → Env
    → Request
    → Bool
    → Option ℕ
    → Connection × List Event × Result ConnError (Option Reply)
unfolding transfer watched
under_deadline c env req want_reply none =
    let (c', events, result) = transfer c env req want_reply in
    (c', watched env.canceled_at events, result)
under_deadline c env req want_reply (some d) =
    if not env.set_deadline_works
    then (c, [], err set_io_deadline)
    else let (c', events, result) = transfer c env req want_reply in
      (c', set_deadline d ∷ (watched env.canceled_at events ++ (clear_deadline ∷ [])), result)

-- exchange
unfoldable pub exchange :
    Connection → Env → Request → Bool → Connection × List Event × Result ConnError (Option Reply)
unfolding exchange_deadline under_deadline
exchange c env req want_reply = elim env.ctx_before [
  | some e ↦ (c, [], err (context_done e))
  | none ↦ under_deadline c env req want_reply (exchange_deadline c env)
]

-- CallContext and Call want a reply, Send does not.
unfoldable pub call :
    Connection → Env → Request → Connection × List Event × Result ConnError (Option Reply)
unfolding exchange
call c env req = exchange c env req true

unfoldable pub send :
    Connection → Env → Request → Connection × List Event × Result ConnError (Option Reply)
unfolding exchange
send c env req = exchange c env req false
