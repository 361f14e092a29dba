-- ===== src/Database/Stmt.antt =====
-- database/stmt.go: statements and rows as objects of a store, on the session of their connection.
-- A pointer to a Stmt or a Rows is its number in the store. An argument is a driver.Value, none for
-- nil.
pub mod Keyword
pub mod Cursor
pub mod Prepare
pub mod Run
pub mod Direct
pub mod Fetching
pub mod Delivery
pub mod Handles
pub mod Failures
pub mod Steady
pub mod Balance
pub mod Others
pub mod Next
pub mod Owned
pub mod Owning
pub mod Reached
mod Sample
mod Runs
use jt400_go.Prelude.{
  ℕ, zero, suc, ◌+◌, ◌-◌, ◌*◌, ◌/◌, Bool, true, false, not, ◌||◌, Option, none, some, List, [], ◌∷◌,
  ◌++◌, ltb, leb, ◌==◌, if◌then◌else◌, length, replicate,
}
use jt400_go.Go.{Result, ok, err, panic, stuck, wrap, Bytes}
use jt400_go.Go.Numbers.{format_nat}
use jt400_go.Auth.Ebcdic.{EbcdicError, encode_ebcdic}
use jt400_go.Database.Format.{Field, FormatError, record_size}
use jt400_go.Database.Data.{ResultData}
use jt400_go.Database.Ccsid.{Registry, TextError, ccsid_ebcdic37}
use jt400_go.Database.Value.{Platform, Value, ValueError}
use jt400_go.Database.Wire.{DbRequest, DbReply, ReplyError, add_text}
use jt400_go.Database.Conn.{Session, DbError, Operation, usable, free_id, err_closed}

abbrev pub fn_create_rpb : ℕ
fn_create_rpb = 0x1D00

abbrev pub fn_delete_rpb : ℕ
fn_delete_rpb = 0x1D02

abbrev pub fn_change_descriptor : ℕ
fn_change_descriptor = 0x1E00

abbrev pub fn_delete_descriptor : ℕ
fn_delete_descriptor = 0x1E01

abbrev pub fn_prepare_describe : ℕ
fn_prepare_describe = 0x1803

abbrev pub fn_execute : ℕ
fn_execute = 0x1805

abbrev pub fn_close : ℕ
fn_close = 0x180A

abbrev pub fn_fetch : ℕ
fn_fetch = 0x180B

abbrev pub fn_open_describe_fetch : ℕ
fn_open_describe_fetch = 0x180E

abbrev pub ors_data_format : ℕ
ors_data_format = 0x08000000

abbrev pub ors_result_data : ℕ
ors_result_data = 0x04000000

abbrev pub ors_parameter_marker_format : ℕ
ors_parameter_marker_format = 0x00800000

abbrev pub reuse_no : ℕ
reuse_no = 0xF0

abbrev pub reuse_yes : ℕ
reuse_yes = 0xF1

abbrev pub vrm_v5r4 : ℕ
vrm_v5r4 = 5 * 65536 + 4 * 256

-- Stmt. Columns are nil unless there are some, so that nil is the empty list.
pub record Stmt : Type 0 where
  pub id : ℕ
  pub stmt_type : ℕ
  pub columns : List Field
  pub params : List Field
  pub descriptor_sent : Bool
  pub rows : Option ℕ
  pub closed : Bool

-- Rows; `st` is its Stmt.
pub record Rows : Type 0 where
  pub st : ℕ
  pub block : Option ResultData
  pub next : ℕ
  pub eof : Bool
  pub cursor_open : Bool
  pub closed : Bool
  pub close_stmt : Bool

-- The connection and the objects made so far, under the numbers below the two counts.
pub record World : Type 0 where
  pub session : Session
  pub stmts : ℕ → Stmt
  pub stmt_count : ℕ
  pub cursors : ℕ → Rows
  pub cursor_count : ℕ

-- The errors of the file; `server` keeps newError's reply with the others of the session.
pub data StmtError : Type 0 where
  server : DbError → StmtError
  bad_name : EbcdicError → StmtError
  bad_query : TextError → StmtError
  text_too_long : ℕ → StmtError
  returns_rows no_rows end_of_rows : StmtError
  wrong_arguments : ℕ → ℕ → StmtError
  bad_argument : ℕ → StmtError
  bad_parameter bad_column : ℕ → ValueError → StmtError
  wrong_destination wrong_columns : ℕ → ℕ → StmtError
  row_too_short mapping_error : ℕ → StmtError
  bad_data : FormatError → StmtError
  bad_sqlca : ReplyError → StmtError
  both : StmtError → StmtError → StmtError

-- c.vrm and c.opts: the release of the server, the block size, the time zone; the converters of
-- texts, and the Unicode tables behind strings.TrimLeftFunc, IndexFunc and ToUpper.
pub record Settings (p : Platform) : Type 0 where
  pub vrm : ℕ
  pub block_size : ℕ
  pub location : Platform.Zone p
  pub registry : Registry
  pub is_space : ℕ → Bool
  pub is_letter : ℕ → Bool
  pub to_upper : Bytes → Bytes

-- A step of the world, and its outcome.
abbrev pub Step : Type 0 → Type 0
Step A = World × Result StmtError A

-- The next call of a function that leaves on an error.
infixl 5 ◌and_then◌
abbrev pub ◌and_then◌ : {A B : Type 0} → Step A → (World → A → Step B) → Step B
(w, ok a) and_then f = f w a
(w, err e) and_then f = (w, err e)
(w, panic) and_then f = (w, panic)
(w, stuck) and_then f = (w, stuck)

-- errors.Join of an error and an outcome.
unfoldable pub joined_with : {A : Type 0} → StmtError → Result StmtError A → Result StmtError A
joined_with e (ok a) = err e
joined_with e (err e') = err (both e e')
joined_with e panic = panic
joined_with e stuck = stuck

-- The next call of a function that goes on after an error, and joins the errors.
unfoldable pub go_on : {A : Type 0} → Step (Unit {0}) → (World → Step A) → Step A
unfolding joined_with
go_on (w, ok u) f = f w
go_on (w, err e) f = let (w', r) = f w in (w', joined_with e r)
go_on (w, panic) f = (w, panic)
go_on (w, stuck) f = (w, stuck)

-- `if usable != nil { return nil }`: nothing more is done on a connection that is not usable.
unfoldable pub if_usable :
    Result DbError (Unit {0}) → World → (World → Step (Unit {0})) → Step (Unit {0})
if_usable (ok u) w f = f w
if_usable (err e) w f = (w, ok tt)
if_usable panic w f = (w, panic)
if_usable stuck w f = (w, stuck)

-- A call of the connection.
abbrev pub on_session : {A : Type 0} → World → Session × Result DbError A → Step A
on_session w (s, r) = (record w { session = s }, wrap server r)

abbrev pub set_at : {A : Type 0} → (ℕ → A) → ℕ → A → ℕ → A
set_at f i a j = if j == i then a else f j

abbrev pub set_stmt : World → ℕ → Stmt → World
set_stmt w i st = record w { stmts = set_at w.stmts i st }

abbrev pub set_cursor : World → ℕ → Rows → World
set_cursor w i r = record w { cursors = set_at w.cursors i r }

-- c.freeID
abbrev pub release_id : World → ℕ → World
release_id w id = record w { session = free_id w.session id }

-- Stmt.usable
unfoldable pub stmt_usable : World → ℕ → Step (Unit {0})
unfolding usable
stmt_usable w i =
    if (w.stmts i).closed then (w, err (server err_closed)) else (w, wrap server (usable w.session))

-- fmt.Sprintf("%04d", id) behind a prefix
unfoldable pub object_name : Bytes → ℕ → Bytes
object_name prefix id =
    let digits = format_nat id in prefix ++ (replicate (4 - length digits) b'0' ++ digits)

-- request.addName
unfoldable pub add_name : DbRequest → ℕ → Bytes → Result StmtError DbRequest
add_name req cp name = elim (wrap bad_name (encode_ebcdic name)) [
  | ok enc ↦ ok (add_text req cp ccsid_ebcdic37 enc)
  | err e ↦ err e
  | panic ↦ panic
  | stuck ↦ stuck
]

-- Stmt.blockingFactor
unfoldable pub blocking_factor : ℕ → List Field → ℕ
blocking_factor block_size columns =
    let row_len = record_size columns in
    let n = block_size / row_len in
    if row_len == 0 then 1 else if ltb n 1 then 1 else if ltb 32767 n then 32767 else n
