-- ===== src/As400/Service.antt =====
-- What the clients in signon/client.go, dtaq/client.go, dtaq/queue.go, rmtcmd/client.go,
-- rmtcmd/command.go, rmtcmd/program.go and database/conn.go have in common: a request that is built,
-- sent by Connection.Call and answered, and a Connect that closes what it dialled on an error.
pub mod Laws
pub mod Opening
use jt400_go.Prelude.{Bool, true, false, Option, none, some, List, [], ◌++◌}
use jt400_go.Go.{Result, ok, err, panic, stuck, ◌>>=◌, wrap}
use jt400_go.As400.Conn.{Connection, Env, Event, ConnError, call}
use jt400_go.As400.Datastream.{Request, Reply}
use jt400_go.As400.Dial.{DialError}

-- The connection behind some exchanges, what they did to the socket, and what they gave.
abbrev pub Exchanged : Type 0 → Type 0 → Type 0
Exchanged E A = Connection × List Event × Result E A

module _ {E : Type 0} where
  -- The reply of a call; a nil one would panic where it is read.
  abbrev pub answer_of : Result ConnError (Option Reply) → (ConnError → E) → Result E Reply
  answer_of (ok none) io = panic
  answer_of (ok (some reply)) io = ok reply
  answer_of (err e) io = err (io e)
  answer_of panic io = panic
  answer_of stuck io = stuck

  -- The reply to one request, as it is parsed.
  unfoldable pub ask :
      {A : Type 0}
      → (ConnError → E)
      → (Reply → Result E A)
      → Connection
      → Env
      → Request
      → Exchanged E A
  ask io parse c env req =
      let (c', events, r) = call c env req in (c', events, (answer_of r io >>= parse))

  -- The same behind the construction of the request, whose error leaves first.
  unfoldable pub asked :
      {A : Type 0}
      → (ConnError → E)
      → Result E Request
      → (Reply → Result E A)
      → Connection
      → Env
      → Exchanged E A
  unfolding ask
  asked io (ok req) parse c env = ask io parse c env req
  asked io (err e) parse c env = (c, [], err e)
  asked io panic parse c env = (c, [], panic)
  asked io stuck parse c env = (c, [], stuck)

  -- The next exchange on the connection, behind one that gave no error.
  infixl 5 ◌followed_by◌
  unfoldable pub ◌followed_by◌ :
      {A B : Type 0} → Exchanged E A → (Connection → A → Exchanged E B) → Exchanged E B
  (c, events, ok a) followed_by f = let (c', more, r) = f c a in (c', events ++ more, r)
  (c, events, err e) followed_by f = (c, events, err e)
  (c, events, panic) followed_by f = (c, events, panic)
  (c, events, stuck) followed_by f = (c, events, stuck)

-- A dialled connection, and whether Close was called on it.
pub record Socket : Type 0 where
  pub connection : Connection
  pub events : List Event
  pub closed : Bool

module _ {E A : Type 0} where
  -- `if err != nil { conn.Close(); return nil, err }`
  unfoldable pub or_close : Exchanged E A → Socket × Result E A
  or_close (c, es, ok a) = (record { connection = c; events = es; closed = false }, ok a)
  or_close (c, es, err e) = (record { connection = c; events = es; closed = true }, err e)
  or_close (c, es, panic) = (record { connection = c; events = es; closed = false }, panic)
  or_close (c, es, stuck) = (record { connection = c; events = es; closed = false }, stuck)

  -- The socket that was dialled, if there is one, behind a handshake on it.
  unfoldable pub opened_by :
      (DialError → E)
      → Result DialError Connection
      → (Connection → Exchanged E A)
      → Option Socket × Result E A
  unfolding or_close
  opened_by io (ok c) handshake = let (s, r) = or_close (handshake c) in (some s, r)
  opened_by io (err e) handshake = (none, err (io e))
  opened_by io panic handshake = (none, panic)
  opened_by io stuck handshake = (none, stuck)
