-- ===== src/Database/Errors.antt =====
-- database/errors.go: Error, what newError makes of a reply, and the text. strings.TrimSpace is the
-- parameter `trim_space`, decodeServerText the parameter `decode_text`.
use jt400_go.Prelude.{ℕ, [], ◌++◌, ◌==◌, if◌then◌else◌}
use jt400_go.Prelude.Int.{ℤ, pos}
use jt400_go.Go.{Result, ok, ◌>>=◌, Bytes}
use jt400_go.Go.Numbers.{format_nat, format_int}
use jt400_go.Go.Strings.{codes, is_nil}
use jt400_go.Database.Conn.{
  Operation, op_ping, op_commit, op_rollback, op_set_autocommit, op_prepare, op_execute,
  op_open_cursor, op_fetch, op_close_statement, op_set_attributes,
}
use jt400_go.Database.Wire.{DbReply, ReplyError, sql_state}

-- Error
pub record Error : Type 0 where
  pub op : Bytes
  pub error_class : ℕ
  pub return_code : ℤ
  pub state : Bytes
  pub message_id : Bytes
  pub message : Bytes

-- The texts that the callers of newError give.
abbrev pub op_text : Operation → Bytes
op_text op_ping = codes "ping"
op_text op_commit = codes "commit"
op_text op_rollback = codes "rollback"
op_text op_set_autocommit = codes "set autocommit"
op_text op_prepare = codes "prepare"
op_text op_execute = codes "execute"
op_text op_open_cursor = codes "open cursor"
op_text op_fetch = codes "fetch"
op_text op_close_statement = codes "close statement"
op_text op_set_attributes = codes "set server attributes"

abbrev pub error_class_sql : ℕ
error_class_sql = 1

-- newError
unfoldable pub new_error :
    (Bytes → Bytes) → (ℕ → Bytes → Bytes) → Operation → DbReply → Result ReplyError Error
unfolding sql_state
new_error trim_space decode_text op r = sql_state decode_text r >>= λ state. ok (record {
  op = op_text op;
  error_class = r.error_class;
  return_code = r.return_code;
  state = trim_space state;
  message_id = trim_space r.message_id;
  message = trim_space r.message;
})

-- A part of the text that stands only for a field that is there.
abbrev present : Bytes → Bytes → Bytes
present field text = if is_nil field then [] else text

-- Error.Error
unfoldable pub error_text : Error → Bytes
error_text e =
    let code =
      if e.error_class == error_class_sql
      then codes " (SQLCODE " ++ format_int e.return_code
      else codes " (error class "
        ++ (format_nat e.error_class ++ (codes ", return code " ++ format_int e.return_code)) in
    codes "database: "
    ++ (e.op
        ++ (codes " failed"
            ++ (present e.message_id (codes ": [" ++ (e.message_id ++ codes "]"))
                ++ (present e.message (codes " " ++ e.message)
                    ++ (code ++ (present e.state (codes ", SQLSTATE " ++ e.state) ++ codes ")"))))))

-- Error.SQLCode
unfoldable pub sql_code : Error → ℤ
sql_code e = if e.error_class == error_class_sql then e.return_code else pos 0
