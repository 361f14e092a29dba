-- ===== src/Dtaq/Client.antt =====
-- dtaq/client.go: Connect, on the parameters of a dial and of a logon.
pub mod Laws
use jt400_go.Prelude.{ℕ, Option, none, some, ◌==◌, if◌then◌else◌}
use jt400_go.Go.{Result, ok, err, panic, stuck, ◌>>=◌, wrap, Bytes}
use jt400_go.As400.Conn.{Connection, Env, ConnError}
use jt400_go.As400.Datastream.{Reply, server_data_queue}
use jt400_go.As400.Dial.{DialError, DialOptions, Network, dial, with_port}
use jt400_go.As400.Logon.Session.{SessionError, StartServerSession, logon}
use jt400_go.As400.Service.{Exchanged, Socket, ask, opened_by, ◌followed_by◌}
use jt400_go.Auth.Password.{Crypto}
use jt400_go.Dtaq.Wire.{QueueError, build_exchange_attributes_request, check_common_reply}

abbrev pub port_data_queue_plain : ℕ
port_data_queue_plain = 8472

abbrev pub port_data_queue_secure : ℕ
port_data_queue_secure = 9472

-- The call that an error is wrapped for.
pub data QueueCall : Type 0 where
  exchange_call create_call delete_call clear_call write_call read_call read_keyed_call
        attributes_call :
      QueueCall

-- The errors of the package's methods.
pub data ClientError : Type 0 where
  not_dialled : DialError → ClientError
  not_logged_on : SessionError → ClientError
  calling : QueueCall → ConnError → ClientError
  queue : QueueError → ClientError

-- A nil error, or the error of the method.
unfoldable pub returned : Option QueueError → Result ClientError (Unit {0})
returned none = ok tt
returned (some e) = err (queue e)

-- `return checkCommonReply(reply)`
unfoldable pub common_reply : Reply → Result ClientError (Unit {0})
unfolding returned
common_reply reply = wrap queue (check_common_reply reply) >>= returned

-- Client.exchangeAttributes, behind its call.
unfoldable pub attributes_exchanged : Reply → Result ClientError (Unit {0})
unfolding common_reply
attributes_exchanged reply = if reply.req_rep_id == 0x8002 then common_reply reply else ok tt

-- Client.exchangeAttributes
unfoldable pub exchange_attributes : Connection → Env → Exchanged ClientError (Unit {0})
unfolding ask attributes_exchanged
exchange_attributes c env =
    ask (calling exchange_call) attributes_exchanged c env build_exchange_attributes_request

module _ (crypto : Crypto) (net : Network) where
  -- Connect behind Dial: the logon and the exchange of attributes.
  unfoldable pub handshake :
      Env → Env → Env → ℕ → Bytes → Bytes → Connection → Exchanged ClientError (Unit {0})
  unfolding exchange_attributes ◌followed_by◌
  handshake env1 env2 env3 now user_id password c =
      let (c', events, r) = logon crypto c env1 env2 now server_data_queue user_id password in
      (c', events, wrap not_logged_on r) followed_by λ c'' session. exchange_attributes c'' env3

  -- Connect
  unfoldable pub connect :
      Env
      → Env
      → Env
      → ℕ
      → DialOptions
      → Bytes
      → Bytes
      → Option Socket × Result ClientError (Unit {0})
  unfolding handshake opened_by
  connect env1 env2 env3 now opts user_id password =
      opened_by not_dialled (dial net (with_port port_data_queue_plain port_data_queue_secure opts))
        (handshake env1 env2 env3 now user_id password)
