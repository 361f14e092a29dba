-- ===== src/Database/Driver/Runs.antt =====
-- ParseDSN on a concrete URL, and the theorem on it there.
use jt400_go.Prelude.{ℕ, ◌≡◌, refl, true, false, none, some, [], ◌∷◌}
use jt400_go.Prelude.Int.{pos}
use jt400_go.Go.Strings.{codes, bytes_eq}
use jt400_go.Go.Numbers.{parse_int, parse_nat, parse_digits, in_range}
use jt400_go.Go.{ok}
use jt400_go.Database.Driver.Dsn.{
  parse_dsn, Url, Parsers, Connector, with_user, set_options, set_option, last_value,
}
use jt400_go.Prelude.{◌==◌}
use jt400_go.Database.Value.Sample.{platform}
use jt400_go.Database.Stmt.Run.{exec}
use jt400_go.Database.Driver.Dsn.Accepted.{Names, parse_dsn-Names}
use jt400_go.Database.Stmt.{World}
use jt400_go.Database.Stmt.{Settings}
use jt400_go.Database.Driver.{driver_prepare}
use jt400_go.Database.Driver.{driver_exec}
use jt400_go.Database.Conn.{Session}
use jt400_go.As400.Conn.{Env}
use jt400_go.Database.Driver.{positional}
use jt400_go.Database.Driver.{exec}
use jt400_go.Database.Stmt.{stmt_usable}
use jt400_go.Database.Conn.{usable}
use jt400_go.Database.Driver.{is_broken_stmt}
use jt400_go.Database.Driver.{is_broken}
use jt400_go.Database.Driver.{err}
use jt400_go.Database.Driver.{bad_conn}
use jt400_go.Database.Driver.{driver_query}
use jt400_go.Database.Driver.Retry.Unsent.{bad_conn_unsent}

-- jt400://ME:PW@HOST:99?naming=system&blocksize=100
abbrev url : Url
url = record {
  scheme = codes "jt400";
  hostname = codes "HOST";
  user = some (codes "ME", codes "PW");
  port = codes "99";
  query =
      (codes "naming", codes "system" ∷ [])
      ∷ (codes "blocksize", codes "1" ∷ codes "100" ∷ [])
      ∷ [];
}

abbrev parsers : Parsers ℕ
parsers = record {
  parse_url = λ s. some url;
  parse_bool = λ s. none;
  parse_duration = λ s. none;
  load_location = λ s. none;
}

abbrev connector : Connector ℕ
connector = record {
  host = codes "HOST";
  port = pos 99;
  tls = false;
  timeout = pos 0;
  io_timeout = pos 0;
  user_id = codes "ME";
  password = codes "PW";
  system_naming = true;
  default_schema = [];
  location = none;
  block_size = pos 100;
}

dsn_run : parse_dsn parsers [] ≡ ok connector
unfolding parse_dsn with_user set_options set_option last_value bytes_eq parse_int parse_nat
    parse_digits in_range
dsn_run = refl

parse_dsn-Names_example :
    (u : Url) × (some url ≡ some u)
    × (bytes_eq u.scheme (codes "jt400") ≡ true)
    × Names parsers u u.user connector
parse_dsn-Names_example = parse_dsn-Names parsers [] connector dsn_run

-- A connection that an earlier error has broken.
abbrev env : ℕ → Env
env n = record {
  ctx_before = none;
  ctx_after = none;
  ctx_deadline = none;
  now = 0;
  now_after = 0;
  set_deadline_works = true;
  canceled_at = none;
  write_works = true;
  incoming = [];
}

abbrev broken_session : Session
broken_session = record {
  link = record { correlation = 7; io_timeout = 0 };
  ids = λ i. i == 1;
  in_tx = false;
  broken = true;
  closed = false;
  env = env;
  step = 3;
  log = [];
}

abbrev world : World
world = record {
  session = broken_session;
  stmts = λ i. record {
    id = 1;
    stmt_type = 1;
    columns = [];
    params = [];
    descriptor_sent = false;
    rows = none;
    closed = false;
  };
  stmt_count = 1;
  cursors = λ r. record {
    st = 0;
    block = none;
    next = 0;
    eof = false;
    cursor_open = false;
    closed = true;
    close_stmt = false;
  };
  cursor_count = 0;
}

abbrev settings : Settings platform
settings = record {
  vrm = 0;
  block_size = 32768;
  location = 0;
  registry = [];
  is_space = λ c. c == 32;
  is_letter = λ c. c == 65;
  to_upper = λ s. s;
}

bad_conn_run : (driver_exec platform settings world 0 []).1 ≡ err bad_conn
unfolding driver_exec positional exec stmt_usable usable is_broken_stmt is_broken
bad_conn_run = refl

bad_conn_unsent_example :
    ((driver_prepare platform settings world []).1 ≡ err bad_conn
      → (driver_prepare platform settings world []).0 ≡ world)
    × ((driver_exec platform settings world 0 []).1 ≡ err bad_conn
        → (driver_exec platform settings world 0 []).0 ≡ world)
    × ((driver_query platform settings world 0 []).1 ≡ err bad_conn
        → (driver_query platform settings world 0 []).0 ≡ world)
bad_conn_unsent_example = bad_conn_unsent platform settings world [] 0 []
