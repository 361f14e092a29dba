-- ===== src/Database/Conn.antt =====
-- database/conn.go: the requests of a connection, its transactions and its statement handles.
-- decodeServerText is the parameter `decode_text`.
pub mod Calls
pub mod Sends
pub mod Transactions
pub mod Handles
mod Runs
use jt400_go.Prelude.{
  ℕ, zero, suc, ◌+◌, Bool, true, false, not, ◌&&◌, Option, none, some, List, [], ◌∷◌, ◌++◌, leb,
  ◌==◌, if◌then◌else◌,
}
use jt400_go.Prelude.Int.{ℤ, pos, negsuc}
use jt400_go.Go.{Result, ok, err, panic, stuck, Bytes, unsigned}
use jt400_go.As400.Conn.{Connection, Env, ConnError, call, send}
use jt400_go.Database.Wire.{
  DbRequest, DbReply, ReplyError, add_byte, add_short, encode_request, parse_reply, failed,
  ors_reply, ors_sqlca, ors_server_attributes,
}
use jt400_go.As400.Datastream.{Reply}

-- The name that newError puts into its error.
pub data Operation : Type 0 where
  op_ping op_commit op_rollback op_set_autocommit : Operation
  op_prepare op_execute op_open_cursor op_fetch op_close_statement op_set_attributes : Operation

-- The errors of the file, one constructor for each place; `server_error` is newError, which keeps
-- the fields of the reply.
pub data DbError : Type 0 where
  err_closed err_conn_broken already_in_transaction no_transaction too_many_statements : DbError
  exchange_failed : ConnError → DbError
  bad_reply : ReplyError → DbError
  server_error : Operation → DbReply → DbError
  unsupported_level : ℤ → DbError
  expects_reply : ℕ → DbError
  joined : DbError → DbError → DbError

-- Conn, with what its calls meet: `env n` is the environment of the exchange number n, `step`
-- counts the exchanges, and `log` lists the requests handed to the connection, in their order.
pub record Session : Type 0 where
  pub link : Connection
  pub ids : ℕ → Bool
  pub in_tx : Bool
  pub broken : Bool
  pub closed : Bool
  pub env : ℕ → Env
  pub step : ℕ
  pub log : List DbRequest

abbrev pub fn_set_attributes : ℕ
fn_set_attributes = 0x1F80

abbrev pub fn_retrieve_attributes : ℕ
fn_retrieve_attributes = 0x1F81

abbrev pub fn_commit : ℕ
fn_commit = 0x1807

abbrev pub fn_rollback : ℕ
fn_rollback = 0x1808

abbrev pub max_statements : ℕ
max_statements = 9999

abbrev pub new_request : ℕ → ℕ → DbRequest
new_request function_id ors = record {
  function_id = function_id;
  rpb_id = 0;
  ors = ors;
  pm_handle = 0;
  params = [];
}

-- usable
unfoldable pub usable : Session → Result DbError (Unit {0})
usable s = if s.closed then err err_closed else if s.broken then err err_conn_broken else ok tt

-- Close: at most once.
unfoldable pub close : Session → Session
close s = if s.closed then s else record s { closed = true }

-- send: a request whose bitmap asks for no reply.
unfoldable pub db_send : Session → DbRequest → Session × Result DbError (Unit {0})
unfolding usable
db_send s req = elim (usable s) [
  | err e ↦ (s, err e)
  | panic ↦ (s, panic)
  | stuck ↦ (s, stuck)
  | ok u ↦
      if not (req.ors == 0)
      then (s, err (expects_reply req.function_id))
      else let (link', events, raw) = send s.link (s.env s.step) (encode_request req) in
        let s' = record s { link = link'; step = s.step + 1; log = s.log ++ (req ∷ []) } in
        elim raw [
          | err e ↦ (record s' { broken = true }, err (exchange_failed e))
          | panic ↦ (s', panic)
          | stuck ↦ (s', stuck)
          | ok reply ↦ (s', ok tt)
        ]
]

-- What follows in a function when one of its calls has succeeded.
infixl 5 ◌then_do◌
abbrev pub ◌then_do◌ :
    {A B : Type 0}
    → Session × Result DbError A
    → (Session → A → Session × Result DbError B)
    → Session × Result DbError B
(s, ok a) then_do f = f s a
(s, err e) then_do f = (s, err e)
(s, panic) then_do f = (s, panic)
(s, stuck) then_do f = (s, stuck)

-- The isolation levels that Begin takes, *CHG to *RR.
unfoldable pub level_ok : ℤ → Bool
level_ok (pos n) = leb 1 n && leb n 4
level_ok (negsuc n) = false

-- The request that ends a transaction, and the one of setAutoCommit.
unfoldable pub end_request : ℕ → DbRequest
unfolding add_byte
end_request function_id = add_byte (new_request function_id (ors_reply + ors_sqlca)) 0x380F 1

unfoldable pub autocommit_request : Bool → ℤ → DbRequest
unfolding add_byte add_short
autocommit_request on level =
    let req = new_request fn_set_attributes (ors_reply + ors_server_attributes) in
    if on
    then add_short (add_byte req 0x3824 0xE8) 0x380E 0
    else add_short (add_byte req 0x3824 0xD5) 0x380E (unsigned 65536 level)

-- What ping, setAutoCommit and commitOrRollback do with call's reply: a failure is an error.
unfoldable pub check_reply :
    Operation → Session × Result DbError DbReply → Session × Result DbError (Unit {0})
check_reply op answer =
    answer then_do λ s rep. (s, if failed rep then err (server_error op rep) else ok tt)

module _ (decode_text : ℕ → Bytes → Bytes) where
  -- The second half of call: what CallContext gave, and parseReply on it. A nil reply with a nil
  -- error would panic there.
  unfoldable pub parsed : Session → Result ReplyError DbReply → Session × Result DbError DbReply
  parsed s (ok rep) = (s, ok rep)
  parsed s (err e) = (record s { broken = true }, err (bad_reply e))
  parsed s panic = (s, panic)
  parsed s stuck = (s, stuck)

  unfoldable pub answered :
      Session → Result ConnError (Option Reply) → Session × Result DbError DbReply
  unfolding parsed
  answered s (err e) = (record s { broken = true }, err (exchange_failed e))
  answered s panic = (s, panic)
  answered s stuck = (s, stuck)
  answered s (ok none) = (s, panic)
  answered s (ok (some reply)) = parsed s (parse_reply decode_text reply)

  -- call
  unfoldable pub db_call : Session → DbRequest → Session × Result DbError DbReply
  unfolding usable answered
  db_call s req = elim (usable s) [
    | err e ↦ (s, err e)
    | panic ↦ (s, panic)
    | stuck ↦ (s, stuck)
    | ok u ↦
        let (link', events, raw) = call s.link (s.env s.step) (encode_request req) in
        let s' = record s { link = link'; step = s.step + 1; log = s.log ++ (req ∷ []) } in
        answered s' raw
  ]

  -- call, and its reply looked at.
  unfoldable pub request_ok : Session → Operation → DbRequest → Session × Result DbError (Unit {0})
  unfolding db_call check_reply
  request_ok s op req = check_reply op (db_call s req)

  -- Ping
  unfoldable pub ping : Session → Session × Result DbError (Unit {0})
  unfolding request_ok
  ping s =
      request_ok s op_ping (new_request fn_retrieve_attributes (ors_reply + ors_server_attributes))

  -- setAutoCommit
  unfoldable pub set_auto_commit : Session → Bool → ℤ → Session × Result DbError (Unit {0})
  unfolding request_ok autocommit_request
  set_auto_commit s on level = request_ok s op_set_autocommit (autocommit_request on level)

  -- commitOrRollback
  unfoldable pub commit_or_rollback : Session → ℕ → Operation → Session × Result DbError (Unit {0})
  unfolding request_ok end_request
  commit_or_rollback s function_id op = request_ok s op (end_request function_id)

  -- Begin
  unfoldable pub begin_tx : Session → ℤ → Session × Result DbError (Unit {0})
  unfolding set_auto_commit level_ok
  begin_tx s level =
      if s.in_tx
      then (s, err already_in_transaction)
      else if not (level_ok level)
      then (s, err (unsupported_level level))
      else (set_auto_commit s false level then_do λ s' u. (record s' { in_tx = true }, ok tt))

  -- The last part of endTransaction, from its setAutoCommit on. `end_err` is the error so far.
  unfoldable pub restored :
      Option DbError → Session × Result DbError (Unit {0}) → Session × Result DbError (Unit {0})
  restored end_err (s, panic) = (s, panic)
  restored end_err (s, stuck) = (s, stuck)
  restored none (s, err e) = (record s { broken = true }, err e)
  restored (some e') (s, err e) = (record s { broken = true }, err (joined e' e))
  restored none (s, ok u) = (record s { in_tx = false }, ok tt)
  restored (some e') (s, ok u) = (record s { in_tx = false }, err e')

  unfoldable pub restore_autocommit : Session → Option DbError → Session × Result DbError (Unit {0})
  unfolding set_auto_commit restored
  restore_autocommit s end_err = restored end_err (set_auto_commit s true (pos 0))

  -- A commit failed with `e`, and this is what the rollback in its place gave.
  unfoldable pub rolled_back :
      DbError → Session × Result DbError (Unit {0}) → Session × Result DbError (Unit {0})
  unfolding restore_autocommit
  rolled_back e (s, ok u) = restore_autocommit s (some e)
  rolled_back e (s, err e') = (record s { broken = true }, err (joined e e'))
  rolled_back e (s, panic) = (s, panic)
  rolled_back e (s, stuck) = (s, stuck)

  -- What follows the first commitOrRollback.
  unfoldable pub ended_with :
      ℕ → Session × Result DbError (Unit {0}) → Session × Result DbError (Unit {0})
  unfolding commit_or_rollback restore_autocommit rolled_back
  ended_with function_id (s, ok u) = restore_autocommit s none
  ended_with function_id (s, err e) =
      if function_id == fn_commit
      then rolled_back e (commit_or_rollback s fn_rollback op_rollback)
      else restore_autocommit s (some e)
  ended_with function_id (s, panic) = (s, panic)
  ended_with function_id (s, stuck) = (s, stuck)

  -- endTransaction
  unfoldable pub end_transaction : Session → ℕ → Operation → Session × Result DbError (Unit {0})
  unfolding commit_or_rollback ended_with
  end_transaction s function_id op =
      if not s.in_tx
      then (s, err no_transaction)
      else ended_with function_id (commit_or_rollback s function_id op)

  -- Commit and Rollback
  unfoldable pub commit : Session → Session × Result DbError (Unit {0})
  unfolding end_transaction
  commit s = end_transaction s fn_commit op_commit

  unfoldable pub rollback : Session → Session × Result DbError (Unit {0})
  unfolding end_transaction
  rollback s = end_transaction s fn_rollback op_rollback

abbrev pub set_id : (ℕ → Bool) → ℕ → Bool → ℕ → Bool
set_id ids i v j = if j == i then v else ids j

-- The loop of allocID from handle i on, over the n handles that are left.
unfoldable pub find_free : ℕ → ℕ → (ℕ → Bool) → Option ℕ
find_free zero i ids = none
find_free (suc n) i ids = if not (ids i) then some i else find_free n (i + 1) ids

-- allocID and freeID
unfoldable pub claim : Session → Option ℕ → Session × Result DbError ℕ
claim s none = (s, err too_many_statements)
claim s (some i) = (record s { ids = set_id s.ids i true }, ok i)

unfoldable pub alloc_id : Session → Session × Result DbError ℕ
unfolding find_free claim
alloc_id s = claim s (find_free max_statements 1 s.ids)

unfoldable pub free_id : Session → ℕ → Session
free_id s i = record s { ids = set_id s.ids i false }
