-- ===== src/As400/Dial.antt =====
-- as400/conn.go: Dial. The network is a parameter: which addresses a dial reaches, and what
-- net.JoinHostPort makes of a host and a port. An IOTimeout is a number, 0 if it is not positive.
use jt400_go.Prelude.{ℕ, Bool, ◌==◌, if◌then◌else◌}
use jt400_go.Prelude.Int.{ℤ, pos, negsuc}
use jt400_go.Go.{Result, ok, err, Bytes}
use jt400_go.Go.Numbers.{format_int}
use jt400_go.As400.Conn.{Connection}
use jt400_go.Prelude.{false}

-- DialOptions; `tls` says whether there is a TLSConfig.
pub record DialOptions : Type 0 where
  pub host : Bytes
  pub port : ℤ
  pub tls : Bool
  pub timeout : ℤ
  pub io_timeout : ℕ

-- net.JoinHostPort, and whether tls.DialWithDialer and Dialer.Dial reach an address in time.
pub record Network : Type 0 where
  pub join_host_port : Bytes → Bytes → Bytes
  pub dial_tls : ℤ → Bytes → Bool
  pub dial_plain : ℤ → Bytes → Bool

pub data DialError : Type 0 where
  unreachable : Bytes → DialError

-- Dial: a new connection has sent nothing.
unfoldable pub dial : Network → DialOptions → Result DialError Connection
dial net opts =
    let addr = Network.join_host_port net opts.host (format_int opts.port) in
    let reached : Bool =
      if opts.tls
      then Network.dial_tls net opts.timeout addr
      else Network.dial_plain net opts.timeout addr in
    if reached
    then ok (record { correlation = 0; io_timeout = opts.io_timeout })
    else err (unreachable addr)

abbrev is_zero : ℤ → Bool
is_zero (pos n) = n == 0
is_zero (negsuc n) = false

-- A service's own port, where the options name none: the SSL port with a TLSConfig.
unfoldable pub with_port : ℕ → ℕ → DialOptions → DialOptions
with_port plain secure opts =
    if is_zero opts.port
    then record opts { port = if opts.tls then pos secure else pos plain }
    else opts
