-- ===== src/As400/Service/Opening.antt =====
-- A Connect leaves no open connection behind on an error.
use jt400_go.Prelude.{◌≡◌, refl, true, false, Option, none, some, arith}
use jt400_go.Go.{Result, ok, err, panic, stuck, returns}
use jt400_go.As400.Conn.{Connection}
use jt400_go.As400.Dial.{DialError, Network, DialOptions, dial}
use jt400_go.As400.Service.{Exchanged, Socket, or_close, opened_by}

-- Connect gives a client and an open connection, or an error and no connection that is open: none was
-- dialled, or Close was called on it.
abbrev pub NoLeak : {E A : Type 0} → Option Socket × Result E A → Type 0
NoLeak (some s, ok a) = s.closed ≡ false
NoLeak (none, ok a) = ⊥
NoLeak (some s, err e) = s.closed ≡ true
NoLeak (none, err e) = Unit {0}
NoLeak (s, panic) = ⊥
NoLeak (s, stuck) = ⊥

or_close-NoLeak :
    {E A : Type 0} (t : Exchanged E A)
    → returns t.2 ≡ true
    → let (s, r) = or_close t in NoLeak (some s, r)
unfolding or_close
or_close-NoLeak (c, events, ok a) h = refl
or_close-NoLeak (c, events, err e) h = refl
or_close-NoLeak (c, events, panic) h = cc
or_close-NoLeak (c, events, stuck) h = cc

opened_by-NoLeak :
    {E A : Type 0} (io : DialError → E) (m : Result DialError Connection)
    (handshake : Connection → Exchanged E A)
    → returns m ≡ true
    → ((c : Connection) → returns (handshake c).2 ≡ true)
    → NoLeak (opened_by io m handshake)
unfolding opened_by
opened_by-NoLeak io (ok c) handshake h total = or_close-NoLeak (handshake c) (total c)
opened_by-NoLeak io (err e) handshake h total = tt
opened_by-NoLeak io panic handshake h total = cc
opened_by-NoLeak io stuck handshake h total = cc

-- A dial ends with a connection or an error.
pub dial-returns : (net : Network) (opts : DialOptions) → returns (dial net opts) ≡ true
unfolding dial
dial-returns net opts = ground arith

-- A Connect whose handshake ends with a value or an error leaves no open connection behind.
pub opened-NoLeak :
    {E A : Type 0} (io : DialError → E) (net : Network) (opts : DialOptions)
    (handshake : Connection → Exchanged E A)
    → ((c : Connection) → returns (handshake c).2 ≡ true)
    → NoLeak (opened_by io (dial net opts) handshake)
opened-NoLeak io net opts handshake total =
    opened_by-NoLeak io (dial net opts) handshake (dial-returns net opts) total
