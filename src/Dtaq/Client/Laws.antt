-- ===== src/Dtaq/Client/Laws.antt =====
-- Connect to the data queue server, in every environment.
use jt400_go.Prelude.{ℕ, ◌≡◌, refl, true, Option, none, some, ◌==◌, length}
use jt400_go.Go.{Bytes, ok, returns}
use jt400_go.Go.Outcome.{returns->>=, wrap-returns, if-returns}
use jt400_go.As400.Conn.{Connection, Env}
use jt400_go.As400.Datastream.{Reply, server_data_queue}
use jt400_go.As400.Dial.{DialOptions, Network, with_port}
use jt400_go.As400.Logon.Total.{logon-returns}
use jt400_go.As400.Service.Laws.{ask-returns, followed_by-returns}
use jt400_go.As400.Service.Opening.{NoLeak, opened-NoLeak}
use jt400_go.Auth.Password.{Crypto}
use jt400_go.Dtaq.Wire.{QueueError, build_exchange_attributes_request}
use jt400_go.Dtaq.Wire.Replies.{check_common_reply-returns}
use jt400_go.Dtaq.Client.{
  queue, not_dialled, not_logged_on, calling, exchange_call, common_reply, returned,
  attributes_exchanged, exchange_attributes, handshake, connect, port_data_queue_plain,
  port_data_queue_secure,
}

returned-returns : (o : Option QueueError) → returns (returned o) ≡ true
unfolding returned
returned-returns none = refl
returned-returns (some e) = refl

pub common_reply-returns : (r : Reply) → returns (common_reply r) ≡ true
unfolding common_reply
common_reply-returns r =
    returns->>= _ _ (wrap-returns queue _ (check_common_reply-returns r))
      (λ o e. returned-returns o)

attributes_exchanged-returns : (r : Reply) → returns (attributes_exchanged r) ≡ true
unfolding attributes_exchanged
attributes_exchanged-returns r =
    if-returns (r.req_rep_id == 0x8002) (common_reply r) (ok tt) (common_reply-returns r) refl

exchange_attributes-returns :
    (c : Connection) (env : Env) → returns (exchange_attributes c env).2 ≡ true
unfolding exchange_attributes
exchange_attributes-returns c env =
    ask-returns (calling exchange_call) attributes_exchanged c env attributes_exchanged-returns
      build_exchange_attributes_request

module _ (crypto : Crypto) (net : Network)
    (sized : (key text : Bytes) → length (Crypto.hmac_sha512 crypto key text) ≡ 64) where
  handshake-returns :
      (env1 env2 env3 : Env) (now : ℕ) (user_id password : Bytes) (c : Connection)
      → returns (handshake crypto net env1 env2 env3 now user_id password c).2 ≡ true
  unfolding handshake
  handshake-returns env1 env2 env3 now user_id password c =
      followed_by-returns _ _
        (wrap-returns not_logged_on _
          (logon-returns crypto sized c env1 env2 now server_data_queue user_id password))
        (λ c' session. exchange_attributes-returns c' env3)

  -- Connect to the data queue server gives a client on an open connection, or an error; with an error
  -- no connection is left open, whatever the network and the server do, if the sums of HMAC have 64
  -- bytes.
  pub connect-NoLeak :
      (env1 env2 env3 : Env) (now : ℕ) (opts : DialOptions) (user_id password : Bytes)
      → NoLeak (connect crypto net env1 env2 env3 now opts user_id password)
  unfolding connect
  connect-NoLeak env1 env2 env3 now opts user_id password =
      opened-NoLeak not_dialled net (with_port port_data_queue_plain port_data_queue_secure opts)
        (handshake crypto net env1 env2 env3 now user_id password)
        (handshake-returns env1 env2 env3 now user_id password)
