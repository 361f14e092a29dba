-- ===== src/Database/Stmt/Sample.antt =====
-- A connection, statements, cursors and blocks for the runs.
use jt400_go.Prelude.{ℕ, true, false, none, some, [], ◌∷◌, ◌++◌, ◌==◌, replicate, not, List, Option}
use jt400_go.Prelude.Int.{pos, negsuc}
use jt400_go.Go.{Bytes}
use jt400_go.Go.Strings.{codes}
use jt400_go.As400.Conn.{Env}
use jt400_go.Database.Value.Sample.{platform}
use jt400_go.Database.Stmt.Prepare.{prepare}
use jt400_go.Database.Stmt.{Stmt, Settings, Rows, World, Field, Value}
use jt400_go.Database.Data.{ResultData}
use jt400_go.Database.Conn.{Session}
use jt400_go.Database.Value.{int}

-- No converter is registered, so no query can be sent.
abbrev pub settings : Settings platform
settings = record {
  vrm = 0;
  block_size = 32768;
  location = 0;
  registry = [];
  is_space = λ c. c == 32;
  is_letter = λ c. not (c == 32);
  to_upper = λ s. s;
}

-- A reply with the error class 0 and no entries.
abbrev pub answer : Bytes
answer =
    (0 ∷ 0 ∷ 0 ∷ 40 ∷ 0 ∷ 0 ∷ 0xE0 ∷ 4 ∷ 0 ∷ 0 ∷ 0 ∷ 0 ∷ 0 ∷ 0 ∷ 0 ∷ 1 ∷ 0 ∷ 20 ∷ 0x28 ∷ 0 ∷ [])
    ++ replicate 20 0

abbrev pub env : ℕ → Env
env n = record {
  ctx_before = none;
  ctx_after = none;
  ctx_deadline = none;
  now = 0;
  now_after = 0;
  set_deadline_works = true;
  canceled_at = none;
  write_works = true;
  incoming = answer;
}

abbrev pub session : Session
session = record {
  link = record { correlation = 0; io_timeout = 0 };
  ids = λ i. i == 1;
  in_tx = false;
  broken = false;
  closed = false;
  env = env;
  step = 0;
  log = [];
}

abbrev pub statement : Stmt
statement = record {
  id = 1;
  stmt_type = 2;
  columns = [];
  params = [];
  descriptor_sent = false;
  rows = some 0;
  closed = false;
}

-- A cursor without a block.
abbrev pub cursor : Rows
cursor = record {
  st = 0;
  block = none;
  next = 0;
  eof = false;
  cursor_open = true;
  closed = false;
  close_stmt = false;
}

abbrev pub one_row : ResultData
one_row = record {
  raw = replicate 20 0;
  row_count = 1;
  column_count = 0;
  indicator_size = 0;
  row_size = 0;
}

abbrev pub world : Rows → World
world rs = record {
  session = session;
  stmts = λ i. statement;
  stmt_count = 1;
  cursors = λ r. rs;
  cursor_count = 1;
}

-- Two rows of one SMALLINT column, without indicators.
abbrev pub two_rows : ResultData
two_rows = record {
  raw = replicate 20 0 ++ (0 ∷ 7 ∷ 255 ∷ 255 ∷ []);
  row_count = 2;
  column_count = 1;
  indicator_size = 0;
  row_size = 2;
}

abbrev pub columns : List Field
columns = record { sql_type = 500; size = 2; scale = 0; precision = 0; ccsid = 0; name = [] } ∷ []

abbrev pub reading : World
reading = record (world (record cursor { block = some two_rows })) {
  stmts = λ i. record statement { columns = columns };
}

abbrev pub rows_sent : List (List (Option (Value platform)))
rows_sent = (some (int (pos 7)) ∷ []) ∷ (some (int (negsuc 0)) ∷ []) ∷ []

-- A converter for the texts of queries, which prepares, runs and closes.
abbrev pub converting : Settings platform
converting = record settings {
  registry = (13488, record { encode = λ s. some s; decode = λ s. some s }) ∷ [];
}

-- Two statements that a program prepares on a connection without handles in use.
abbrev pub fresh : World
fresh = record (world cursor) { session = record session { ids = λ i. false }; stmt_count = 0 }

abbrev pub one_held : World
one_held = (prepare platform converting fresh (codes "X")).0

abbrev pub two_held : World
two_held = (prepare platform converting one_held (codes "X")).0
