-- ===== src/Database/Connect.antt =====
-- database/conn.go: Connect, on the parameters of a dial, of a logon and of a setup. `env n` is the
-- environment of the exchange number n of the session behind the logon.
pub mod Fresh
mod Runs
use jt400_go.Prelude.{ℕ, Bool, true, false, Option, none, some, [], leb, if◌then◌else◌, ◌==◌}
use jt400_go.Prelude.Int.{ℤ, pos, negsuc}
use jt400_go.Go.{Result, ok, err, panic, stuck, wrap, Bytes}
use jt400_go.As400.Conn.{Connection, Env}
use jt400_go.As400.Datastream.{server_database}
use jt400_go.As400.Dial.{DialError, DialOptions, Network, dial, with_port}
use jt400_go.As400.Logon.Session.{SessionError, StartServerSession, logon}
use jt400_go.Auth.Password.{Crypto}
use jt400_go.Database.Ccsid.{Registry}
use jt400_go.Database.Conn.{Session}
use jt400_go.Database.Setup.{SetupError, ServerFacts, set_server_attributes}

abbrev pub port_database_plain : ℕ
port_database_plain = 8471

abbrev pub port_database_secure : ℕ
port_database_secure = 9471

abbrev pub default_block_size : ℤ
default_block_size = pos 32768

-- Options; a nil *time.Location is none.
pub record Options (Location : Type 0) : Type 0 where
  pub system_naming : Bool
  pub default_schema : Bytes
  pub location : Option Location
  pub block_size : ℤ

pub data ConnectError : Type 0 where
  not_dialled : DialError → ConnectError
  not_logged_on : SessionError → ConnectError
  not_set_up : SetupError → ConnectError

-- Conn: what its requests change, what the server said of itself, and the options.
pub record Conn (Location : Type 0) : Type 0 where
  pub session : Session
  pub facts : ServerFacts
  pub opts : Options Location

-- `&Conn{conn: conn, opts: opts}`
unfoldable pub new_session : Connection → (ℕ → Env) → Session
new_session c env = record {
  link = c;
  ids = λ i. false;
  in_tx = false;
  broken = false;
  closed = false;
  env = env;
  step = 0;
  log = [];
}

-- ServerCCSID, VRM, JobID and InTransaction
module _ {Location : Type 0} (c : Conn Location) where
  unfoldable pub server_ccsid : ℕ
  server_ccsid = c.facts.server_ccsid

  unfoldable pub vrm : ℕ
  vrm = c.facts.vrm

  unfoldable pub job_id : Bytes
  job_id = c.facts.job_id

  unfoldable pub in_transaction : Bool
  in_transaction = c.session.in_tx

abbrev is_positive : ℤ → Bool
is_positive (pos n) = leb 1 n
is_positive (negsuc n) = false

-- The zone and the block size that stand for those that are not set.
unfoldable pub with_defaults : {Location : Type 0} → Location → Options Location → Options Location
with_defaults utc opts = record opts {
  location = elim opts.location [ none ↦ some utc | some l ↦ some l ];
  block_size = if is_positive opts.block_size then opts.block_size else default_block_size;
}

-- Whether Close was called on the connection, if one was dialled, and what Connect gives.
abbrev pub Opened : Type 0 → Type 0
Opened Location = Option Bool × Result ConnectError (Conn Location)

-- Connect behind setServerAttributes
unfoldable pub set_up :
    {Location : Type 0}
    → Options Location
    → Session × Result SetupError ServerFacts
    → Opened Location
set_up opts (s, ok facts) = (some false, ok (record { session = s; facts = facts; opts = opts }))
set_up opts (s, err e) = (some true, err (not_set_up e))
set_up opts (s, panic) = (some false, panic)
set_up opts (s, stuck) = (some false, stuck)

module _ {Location : Type 0} (utc : Location) (crypto : Crypto) (net : Network)
    (registry : Registry) (trim_space : Bytes → Bytes) where
  -- Connect behind Logon
  unfoldable pub logged_on :
      Options Location
      → (ℕ → Env)
      → Connection
      → Result SessionError StartServerSession
      → Opened Location
  unfolding set_up new_session
  logged_on opts env c (ok session) = set_up opts (
      set_server_attributes registry trim_space (new_session c env) opts.system_naming
        opts.default_schema)
  logged_on opts env c (err e) = (some true, err (not_logged_on e))
  logged_on opts env c panic = (some false, panic)
  logged_on opts env c stuck = (some false, stuck)

  -- Connect behind Dial
  unfoldable pub dialled :
      Env
      → Env
      → (ℕ → Env)
      → ℕ
      → Bytes
      → Bytes
      → Options Location
      → Result DialError Connection
      → Opened Location
  unfolding logged_on
  dialled env1 env2 env now user_id password opts (ok c) =
      let (c', events, r) = logon crypto c env1 env2 now server_database user_id password in
      logged_on opts env c' r
  dialled env1 env2 env now user_id password opts (err e) = (none, err (not_dialled e))
  dialled env1 env2 env now user_id password opts panic = (none, panic)
  dialled env1 env2 env now user_id password opts stuck = (none, stuck)

  -- Connect
  unfoldable pub connect :
      Env → Env → (ℕ → Env) → ℕ → DialOptions → Bytes → Bytes → Options Location → Opened Location
  unfolding dialled with_defaults
  connect env1 env2 env now options user_id password opts =
      dialled env1 env2 env now user_id password (with_defaults utc opts)
        (dial net (with_port port_database_plain port_database_secure options))
