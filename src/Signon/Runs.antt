-- ===== src/Signon/Runs.antt =====
-- A sign-on at a server that answers, and the theorem on it there.
use jt400_go.Prelude.{ℕ, ◌≡◌, refl, true, none, [], ◌∷◌, ◌++◌, replicate, ◌+◌, some}
use jt400_go.Prelude.Int.{pos}
use jt400_go.Go.{ok, Bytes, be64, uint16, be16_at, uint32, be32_at, byte_at, slice}
use jt400_go.Auth.Password.{Crypto, encrypt_password, encrypt_password_des, prefixed_password}
use jt400_go.Signon.Client.{
  Client, client_of, exchange_attributes, authenticate, authenticate_request,
}
use jt400_go.As400.Conn.Exchange.{written}
use jt400_go.Signon.Wire.{
  SignonInfo, ExchangeAttributes, parse_exchange_attribute_reply, build_signon_info_request,
  parse_signon_info_reply, with_field, parse_signon_date, build_exchange_attribute_request,
}
use jt400_go.As400.Conn.{
  Env, Connection, call, exchange, exchange_deadline, under_deadline, watched, transfer,
  next_correlation,
}
use jt400_go.As400.Service.{asked, ask}
use jt400_go.As400.Datastream.{Reply, read_reply, read_full, return_code}
use jt400_go.Auth.Ebcdic.{
  encode_ebcdic10, encode_ebcdic_padded, encode_ebcdic, lookup, ascii_to_ebcdic, run,
}
use jt400_go.As400.Params.{decode_params, decode_params_loop, find}
use jt400_go.As400.Logon.Frames.{frame}
use jt400_go.Signon.Client.Laws.{authenticate_signs_on}

abbrev crypto : Crypto
crypto = record {
  to_upper = λ s. s;
  enc_des = λ key block. replicate 8 7;
  sha1 = λ text. replicate 20 1;
  sha256 = λ text. replicate 32 2;
  sha512 = λ text. replicate 64 3;
  hmac_sha512 = λ key text. replicate 64 4;
}

abbrev connection : Connection
connection = record { correlation = 0; io_timeout = 0 }

-- A frame of n body bytes: the return code 0, and zeros.
abbrev answer : ℕ → Bytes
answer n =
    (0
      ∷ 0
      ∷ 0
      ∷ (20 + n)
      ∷ 0
      ∷ 0
      ∷ 0xE0
      ∷ 9
      ∷ 0
      ∷ 0
      ∷ 0
      ∷ 0
      ∷ 0
      ∷ 0
      ∷ 0
      ∷ 1
      ∷ 0
      ∷ 4
      ∷ 0xF0
      ∷ 3
      ∷ [])
    ++ replicate n 0

abbrev env : ℕ → Env
env n = record {
  ctx_before = none;
  ctx_after = none;
  ctx_deadline = none;
  now = 0;
  now_after = 0;
  set_deadline_works = true;
  canceled_at = none;
  write_works = true;
  incoming = answer n;
}

abbrev client : Client
client = record {
  client_seed = be64 5;
  server_seed = replicate 8 0;
  password_level = pos 0;
  server_level = 0;
  job_name = [];
}

abbrev info : SignonInfo {Time = ℕ} (λ y mo d h mi s. y) 0
info = record {
  current_signon_date = 0;
  last_signon_date = 0;
  expiration_date = 0;
  warning_days = pos 0;
  server_ccsid = 0;
  user_id = [];
}

attributes_run : (exchange_attributes 5 connection (env 22)).2 ≡ ok client
unfolding exchange_attributes ask call exchange exchange_deadline under_deadline watched transfer
    read_reply read_full client_of parse_exchange_attribute_reply return_code uint16 be16_at uint32
    be32_at byte_at slice decode_params decode_params_loop find with_field
attributes_run = refl

sign_on_run :
    (authenticate (λ y mo d h mi s. y) 0 crypto client (65 ∷ []) (66 ∷ []) connection (env 4)).2
    ≡ ok info
unfolding authenticate asked ask call exchange exchange_deadline under_deadline watched transfer
    read_reply read_full authenticate_request encrypt_password encrypt_password_des encode_ebcdic10
    encode_ebcdic_padded encode_ebcdic lookup ascii_to_ebcdic run build_signon_info_request
    parse_signon_info_reply return_code uint16 be16_at uint32 be32_at byte_at slice decode_params
    decode_params_loop find with_field prefixed_password parse_signon_date
sign_on_run = refl

authenticate_signs_on_example :
    (first_reply : Reply) × (attrs : ExchangeAttributes) × (auth user : Bytes) × (reply : Reply)
    × ((call connection (env 22) (build_exchange_attribute_request (be64 5))).2
        ≡ ok (some first_reply))
    × (parse_exchange_attribute_reply first_reply ≡ ok attrs)
    × (written (exchange_attributes 5 connection (env 22)).1
        ≡ frame (next_correlation 0) (build_exchange_attribute_request (be64 5)) ∷ [])
    × (encrypt_password crypto
          (pos attrs.password_level)
          (65 ∷ [])
          (66 ∷ [])
          (be64 5)
          attrs.server_seed
        ≡ ok auth)
    × (encode_ebcdic10 (Crypto.to_upper crypto (65 ∷ [])) ≡ ok user)
    × (written
          (authenticate
            (λ y mo d h mi s. y)
            0
            crypto
            client
            (65 ∷ [])
            (66 ∷ [])
            connection
            (env 4)).1
        ≡ frame (next_correlation 0) (build_signon_info_request user auth attrs.server_level) ∷ [])
    × ((call connection (env 4) (build_signon_info_request user auth attrs.server_level)).2
        ≡ ok (some reply))
    × (parse_signon_info_reply (λ y mo d h mi s. y) 0 reply ≡ ok info)
authenticate_signs_on_example =
    authenticate_signs_on (λ y mo d h mi s. y) 0 crypto (65 ∷ []) (66 ∷ []) 5 connection connection
      (env 22) (env 4) client info attributes_run sign_on_run
