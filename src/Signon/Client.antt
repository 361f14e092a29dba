-- ===== src/Signon/Client.antt =====
-- signon/client.go: the two exchanges of a sign-on and the state that the first leaves for the
-- second. time.Date is the parameter `date`; `now` is time.Now().UnixMilli() as an unsigned number.
pub mod Laws
use jt400_go.Prelude.{ℕ, Option, none, some}
use jt400_go.Prelude.Int.{ℤ, pos}
use jt400_go.Go.{Result, ok, err, panic, stuck, ◌>>=◌, wrap, Bytes, be64}
use jt400_go.As400.Conn.{Connection, Env, ConnError}
use jt400_go.As400.Datastream.{Request, Reply}
use jt400_go.As400.Dial.{DialError, DialOptions, Network, dial, with_port}
use jt400_go.As400.Service.{Exchanged, Socket, ask, asked, opened_by}
use jt400_go.Auth.Ebcdic.{EbcdicError, encode_ebcdic10}
use jt400_go.Auth.Password.{Crypto, PasswordError, encrypt_password}
use jt400_go.Signon.Wire.{
  SignonError, SignonInfo, ExchangeAttributes, build_exchange_attribute_request,
  parse_exchange_attribute_reply, build_signon_info_request, parse_signon_info_reply,
}

abbrev pub port_signon_plain : ℕ
port_signon_plain = 8476

abbrev pub port_signon_secure : ℕ
port_signon_secure = 9476

pub data ClientError : Type 0 where
  not_dialled : DialError → ClientError
  exchange_attributes_call authenticate_call : ConnError → ClientError
  bad_reply : SignonError → ClientError
  bad_credentials : PasswordError → ClientError
  bad_user_id : EbcdicError → ClientError

-- Client, without its connection.
pub record Client : Type 0 where
  pub client_seed : Bytes
  pub server_seed : Bytes
  pub password_level : ℤ
  pub server_level : ℕ
  pub job_name : Bytes

-- The fields that Client.exchangeAttributes sets.
unfoldable pub client_of : Bytes → Reply → Result ClientError Client
client_of seed reply = do
  attrs ← wrap bad_reply (parse_exchange_attribute_reply reply)
  ok (record {
    client_seed = seed;
    server_seed = attrs.server_seed;
    password_level = pos attrs.password_level;
    server_level = attrs.server_level;
    job_name = attrs.job_name;
  })

-- Client.exchangeAttributes
unfoldable pub exchange_attributes : ℕ → Connection → Env → Exchanged ClientError Client
unfolding ask client_of
exchange_attributes now c env =
    ask exchange_attributes_call (client_of (be64 now)) c env
      (build_exchange_attribute_request (be64 now))

-- Connect
unfoldable pub connect : Network → Env → ℕ → DialOptions → Option Socket × Result ClientError Client
unfolding exchange_attributes opened_by
connect net env now opts =
    opened_by not_dialled (dial net (with_port port_signon_plain port_signon_secure opts))
      (λ c. exchange_attributes now c env)

-- The request of Authenticate: the password under the seeds and the level of the client.
unfoldable pub authenticate_request : Crypto → Client → Bytes → Bytes → Result ClientError Request
authenticate_request crypto client user_id password = do
  auth_bytes ← wrap bad_credentials (
      encrypt_password crypto client.password_level user_id password client.client_seed
        client.server_seed)
  user_id_bytes ← wrap bad_user_id (encode_ebcdic10 (Crypto.to_upper crypto user_id))
  ok (build_signon_info_request user_id_bytes auth_bytes client.server_level)

module _ {Time : Type 0} (date : ℕ → ℕ → ℕ → ℕ → ℕ → ℕ → Time) (zero_time : Time)
    (crypto : Crypto) where
  -- Client.Authenticate
  unfoldable pub authenticate :
      Client → Bytes → Bytes → Connection → Env → Exchanged ClientError (SignonInfo date zero_time)
  unfolding asked authenticate_request
  authenticate client user_id password c env =
      asked authenticate_call (authenticate_request crypto client user_id password)
        (λ reply. wrap bad_reply (parse_signon_info_reply date zero_time reply)) c env
