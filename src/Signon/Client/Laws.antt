-- ===== src/Signon/Client/Laws.antt =====
-- The sign-on over its two exchanges.
use jt400_go.Prelude.{ℕ, ◌≡◌, refl, sym, ap, ◌∙◌, true, some, [], ◌∷◌}
use jt400_go.Prelude.Int.{pos}
use jt400_go.Go.{ok, wrap, returns, Bytes, be64}
use jt400_go.Go.Outcome.{returns->>=, wrap-returns, wrap-eq-ok, >>=-eq-ok}
use jt400_go.As400.Conn.{Connection, Env, next_correlation, call}
use jt400_go.As400.Conn.Exchange.{written}
use jt400_go.As400.Datastream.{Request, Reply}
use jt400_go.As400.Dial.{DialOptions, Network, with_port}
use jt400_go.As400.Logon.Frames.{frame}
use jt400_go.As400.Service.Laws.{ask-returns, ask_ok, asked_ok}
use jt400_go.As400.Service.Opening.{NoLeak, opened-NoLeak}
use jt400_go.Auth.Ebcdic.{encode_ebcdic10}
use jt400_go.Auth.Password.{Crypto, encrypt_password}
use jt400_go.Signon.Wire.{
  SignonInfo, ExchangeAttributes, build_exchange_attribute_request, parse_exchange_attribute_reply,
  build_signon_info_request, parse_signon_info_reply,
}
use jt400_go.Signon.Wire.Replies.{parse_exchange_attribute_reply-returns}
use jt400_go.Signon.Client.{
  Client, not_dialled, exchange_attributes_call, authenticate_call, bad_reply, bad_credentials,
  bad_user_id, client_of, exchange_attributes, connect, authenticate_request, authenticate,
  port_signon_plain, port_signon_secure,
}

client_of-returns : (seed : Bytes) (r : Reply) → returns (client_of seed r) ≡ true
unfolding client_of
client_of-returns seed r =
    returns->>= _ _ (wrap-returns bad_reply _ (parse_exchange_attribute_reply-returns r))
      (λ attrs e. refl)

exchange_attributes-returns :
    (now : ℕ) (c : Connection) (env : Env) → returns (exchange_attributes now c env).2 ≡ true
unfolding exchange_attributes
exchange_attributes-returns now c env =
    ask-returns exchange_attributes_call (client_of (be64 now)) c env (client_of-returns (be64 now))
      (build_exchange_attribute_request (be64 now))

-- Connect to the sign-on server gives a client on an open connection, or an error; with an error no
-- connection is left open.
pub connect-NoLeak :
    (net : Network) (env : Env) (now : ℕ) (opts : DialOptions) → NoLeak (connect net env now opts)
unfolding connect
connect-NoLeak net env now opts =
    opened-NoLeak not_dialled net (with_port port_signon_plain port_signon_secure opts)
      (λ c. exchange_attributes now c env) (λ c. exchange_attributes-returns now c env)

-- The client after the exchange of attributes, by the attributes in its reply.
abbrev pub client_with : Bytes → ExchangeAttributes → Client
client_with seed attrs = record {
  client_seed = seed;
  server_seed = attrs.server_seed;
  password_level = pos attrs.password_level;
  server_level = attrs.server_level;
  job_name = attrs.job_name;
}

client_of_ok :
    (seed : Bytes) (r : Reply) {client : Client}
    → client_of seed r ≡ ok client
    → (attrs : ExchangeAttributes) × (parse_exchange_attribute_reply r ≡ ok attrs)
      × (client_with seed attrs ≡ client)
unfolding client_of
client_of_ok seed r {client} h =
    let (attrs, e, f) = >>=-eq-ok (wrap bad_reply (parse_exchange_attribute_reply r)) _ h in
    let same : client_with seed attrs ≡ client = cc in
    (attrs, wrap-eq-ok bad_reply (parse_exchange_attribute_reply r) e, same)

module _ {Time : Type 0} (date : ℕ → ℕ → ℕ → ℕ → ℕ → ℕ → Time) (zero_time : Time) (crypto : Crypto)
    (user_id password : Bytes) where
  -- The request of Authenticate is made of the client's seeds and level, and of the credentials.
  authenticate_request_ok :
      (client : Client) {req : Request}
      → authenticate_request crypto client user_id password ≡ ok req
      → (auth user : Bytes) × (encrypt_password crypto client.password_level user_id password
            client.client_seed client.server_seed
          ≡ ok auth)
        × (encode_ebcdic10 (Crypto.to_upper crypto user_id) ≡ ok user)
        × (build_signon_info_request user auth client.server_level ≡ req)
  unfolding authenticate_request
  authenticate_request_ok client {req} h =
      let m =
        encrypt_password crypto client.password_level user_id password client.client_seed
          client.server_seed in
      let u = encode_ebcdic10 (Crypto.to_upper crypto user_id) in
      let (auth, e, f) = >>=-eq-ok (wrap bad_credentials m) _ h in
      let (user, e', g) = >>=-eq-ok (wrap bad_user_id u) _ f in
      let same : build_signon_info_request user auth client.server_level ≡ req = cc in
      (auth, user, wrap-eq-ok bad_credentials m e, wrap-eq-ok bad_user_id u e', same)

  -- A sign-on that succeeds, over the exchange of attributes and Authenticate. The first call wrote
  -- exactly its request with the clock's seed and got a reply; the attributes parsed from this reply
  -- give the seed, the password level and the server level of what follows. Authenticate wrote exactly
  -- the sign-on request with the user ID in EBCDIC and the substitute that EncryptPassword makes of the
  -- credentials under that level, the clock's seed and the server's; and the reply that this call got
  -- parses to the sign-on information that comes back.
  pub authenticate_signs_on :
      (now : ℕ) (c c' : Connection) (env env' : Env) (client : Client)
      (info : SignonInfo date zero_time)
      → (exchange_attributes now c env).2 ≡ ok client
      → (authenticate date zero_time crypto client user_id password c' env').2 ≡ ok info
      → (first_reply : Reply) × (attrs : ExchangeAttributes) × (auth user : Bytes) × (reply : Reply)
        × ((call c env (build_exchange_attribute_request (be64 now))).2 ≡ ok (some first_reply))
        × (parse_exchange_attribute_reply first_reply ≡ ok attrs)
        × (written (exchange_attributes now c env).1
            ≡ frame (next_correlation c.correlation) (build_exchange_attribute_request (be64 now))
              ∷ [])
        × (encrypt_password crypto
              (pos attrs.password_level)
              user_id
              password
              (be64 now)
              attrs.server_seed
            ≡ ok auth)
        × (encode_ebcdic10 (Crypto.to_upper crypto user_id) ≡ ok user)
        × (written (authenticate date zero_time crypto client user_id password c' env').1
            ≡ frame
                (next_correlation c'.correlation)
                (build_signon_info_request user auth attrs.server_level)
              ∷ [])
        × ((call c' env' (build_signon_info_request user auth attrs.server_level)).2
            ≡ ok (some reply))
        × (parse_signon_info_reply date zero_time reply ≡ ok info)
  unfolding exchange_attributes authenticate
  authenticate_signs_on now c c' env env' client info first second =
      let seed = be64 now in
      let (reply1, came1, made, wrote1) =
        ask_ok exchange_attributes_call (client_of seed) c env
          (build_exchange_attribute_request seed) first in
      let (attrs, parsed, same) = client_of_ok seed reply1 made in
      let (req, reply2, built, came2, read, wrote2) =
        asked_ok authenticate_call
          (λ reply. wrap bad_reply (parse_signon_info_reply date zero_time reply)) c' env'
          (authenticate_request crypto client user_id password) second in
      let (auth, user, ciphered, encoded, whole) =
        authenticate_request_ok (client_with seed attrs) (rw (← same) at built) in
      (
        reply1,
        attrs,
        auth,
        user,
        reply2,
        came1,
        parsed,
        wrote1,
        ciphered,
        encoded,
        wrote2 ∙ ap (λ (r : Request). frame (next_correlation c'.correlation) r ∷ []) (sym whole),
        ap (λ (r : Request). (call c' env' r).2) whole ∙ came2,
        wrap-eq-ok bad_reply (parse_signon_info_reply date zero_time reply2) read,
      )
