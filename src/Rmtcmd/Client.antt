-- ===== src/Rmtcmd/Client.antt =====
-- rmtcmd/client.go, rmtcmd/command.go and rmtcmd/program.go: Connect, RunCommand and CallProgram.
-- A call that fails behind its reply still returns the messages, and a program call the parameters
-- as it leaves them. strings.ToUpper is the parameter `to_upper`.
pub mod Laws
pub mod Ends
use jt400_go.Prelude.{
  ℕ, Bool, true, false, not, Option, none, some, List, [], ltb, ◌==◌, if◌then◌else◌, length,
}
use jt400_go.Go.{Result, ok, err, panic, stuck, ◌>>=◌, wrap, Bytes, uint16}
use jt400_go.As400.Conn.{Connection, Env, Event, ConnError}
use jt400_go.As400.Datastream.{Request, Reply, server_remote_command}
use jt400_go.As400.Dial.{DialError, DialOptions, Network, dial, with_port}
use jt400_go.As400.Logon.Session.{SessionError, logon}
use jt400_go.As400.Service.{Exchanged, Socket, ask, asked, opened_by, ◌followed_by◌}
use jt400_go.Auth.Password.{Crypto}
use jt400_go.Rmtcmd.Messages.{Message, parse_messages}
use jt400_go.Rmtcmd.Wire.{
  RmtError, MessageOption, Parameter, build_exchange_attributes_request,
  parse_exchange_attributes_reply, build_run_command_request, build_call_program_request,
  parse_call_program_output,
}

abbrev pub port_remote_command_plain : ℕ
port_remote_command_plain = 8475

abbrev pub port_remote_command_secure : ℕ
port_remote_command_secure = 9475

-- The errors of the package's methods; `returned_code` is an Error.
pub data ClientError : Type 0 where
  not_dialled : DialError → ClientError
  not_logged_on : SessionError → ClientError
  exchange_attributes_call run_command_call call_program_call : ConnError → ClientError
  wire : RmtError → ClientError
  reply_too_short : ClientError
  returned_code : ℕ → ClientError

-- Client, without its connection.
pub record Client : Type 0 where
  pub ds_level : ℕ
  pub ccsid : ℕ

-- The client that Connect makes of the reply to its exchange of attributes.
unfoldable pub client_of : Reply → Result ClientError Client
client_of reply = do
  (ccsid, ds_level) ← wrap wire (parse_exchange_attributes_reply reply)
  ok (record { ds_level = ds_level; ccsid = ccsid })

module _ (crypto : Crypto) (net : Network) where
  -- Connect behind Dial.
  unfoldable pub handshake :
      Env → Env → Env → ℕ → Bytes → Bytes → Connection → Exchanged ClientError Client
  unfolding ask client_of ◌followed_by◌
  handshake env1 env2 env3 now user_id password c =
      let (c', events, r) = logon crypto c env1 env2 now server_remote_command user_id password in
      (c', events, wrap not_logged_on r) followed_by λ c'' session.
      ask exchange_attributes_call client_of c'' env3 build_exchange_attributes_request

  -- Connect
  unfoldable pub connect :
      Env → Env → Env → ℕ → DialOptions → Bytes → Bytes → Option Socket × Result ClientError Client
  unfolding handshake opened_by
  connect env1 env2 env3 now opts user_id password =
      opened_by not_dialled
        (dial net (with_port port_remote_command_plain port_remote_command_secure opts))
        (handshake env1 env2 env3 now user_id password)

-- What a method returns behind its reply: the messages, and its error if it has one.
pub record Outcome : Type 0 where
  pub messages : List Message
  pub error : Option ClientError

-- The return code of a reply.
unfoldable pub code_of : Reply → Result ClientError ℕ
code_of reply = if ltb (length reply.body) 2 then err reply_too_short else uint16 reply.body 0

-- RunCommand behind its call.
unfoldable pub command_outcome : Reply → Result ClientError Outcome
unfolding code_of
command_outcome reply = do
  rc ← code_of reply
  let messages = (parse_messages reply.body).0
  ok (record {
    messages = messages;
    error = if not (rc == 0) then some (returned_code rc) else none;
  })

-- Client.RunCommand
unfoldable pub run_command :
    Client → List ℕ → MessageOption → Connection → Env → Exchanged ClientError Outcome
unfolding asked command_outcome
run_command client command msg_opt c env =
    asked run_command_call (wrap wire (build_run_command_request command client.ds_level msg_opt))
      command_outcome c env

-- The end of CallProgram, on what parseCallProgramOutput gave.
unfoldable pub output_outcome :
    List Message
    → List Parameter × Result RmtError (Unit {0})
    → Result ClientError (Outcome × List Parameter)
output_outcome messages (params, ok u) = ok (record { messages = messages; error = none }, params)
output_outcome messages (params, err e) =
    ok (record { messages = messages; error = some (wire e) }, params)
output_outcome messages (params, panic) = panic
output_outcome messages (params, stuck) = stuck

-- CallProgram behind its call: the outcome, and the parameters.
unfoldable pub program_outcome :
    List Parameter → Reply → Result ClientError (Outcome × List Parameter)
unfolding code_of output_outcome
program_outcome params reply = do
  rc ← code_of reply
  let messages = (parse_messages reply.body).0
  if not (rc == 0)
      then ok (record { messages = messages; error = some (returned_code rc) }, params)
      else output_outcome messages (parse_call_program_output reply.body params)

-- Client.CallProgram. Where this gives an error, the parameters are as before.
unfoldable pub call_program :
    (Bytes → Bytes)
    → Client
    → Bytes
    → Bytes
    → List Parameter
    → MessageOption
    → Connection
    → Env
    → Exchanged ClientError (Outcome × List Parameter)
unfolding asked program_outcome
call_program to_upper client library program params msg_opt c env =
    asked call_program_call
      (wrap wire
        (build_call_program_request to_upper library program params client.ds_level msg_opt))
      (program_outcome params) c env
