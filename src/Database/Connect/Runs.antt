-- ===== src/Database/Connect/Runs.antt =====
-- Connect at a server that answers the logon and nothing behind it, and the theorem there.
use jt400_go.Prelude.{ℕ, refl, true, false, none, [], ◌∷◌, ◌++◌, replicate}
use jt400_go.Prelude.Int.{pos}
use jt400_go.Go.{Bytes}
use jt400_go.As400.Conn.{Env}
use jt400_go.As400.Dial.{DialOptions, Network}
use jt400_go.Auth.Password.{Crypto}
use jt400_go.Database.Connect.{Options, connect}
use jt400_go.Database.Connect.Fresh.{IsOpened, connect-IsOpened}
use jt400_go.Prelude.{◌+◌}

abbrev crypto : Crypto
crypto = record {
  to_upper = λ s. s;
  enc_des = λ key block. replicate 8 7;
  sha1 = λ text. replicate 20 1;
  sha256 = λ text. replicate 32 2;
  sha512 = λ text. replicate 64 3;
  hmac_sha512 = λ key text. replicate 64 4;
}

abbrev net : Network
net = record {
  join_host_port = λ host port. host ++ (b':' ∷ port);
  dial_tls = λ timeout addr. false;
  dial_plain = λ timeout addr. true;
}

abbrev dial_options : DialOptions
dial_options = record {
  host = b'H' ∷ [];
  port = pos 0;
  tls = false;
  timeout = pos 0;
  io_timeout = 0;
}

abbrev options : Options ℕ
options = record { system_naming = true; default_schema = []; location = none; block_size = pos 0 }

-- A frame of n zeros behind the header of a logon reply.
abbrev answer : ℕ → Bytes
answer n =
    (0
      ∷ 0
      ∷ 0
      ∷ (20 + n)
      ∷ 0
      ∷ 3
      ∷ 0xE0
      ∷ 4
      ∷ 0
      ∷ 0
      ∷ 0
      ∷ 0
      ∷ 0
      ∷ 0
      ∷ 0
      ∷ 1
      ∷ 0
      ∷ 12
      ∷ 0xF0
      ∷ 1
      ∷ [])
    ++ replicate n 0

abbrev env : ℕ → Env
env n = record {
  ctx_before = none;
  ctx_after = none;
  ctx_deadline = none;
  now = 0;
  now_after = 0;
  set_deadline_works = true;
  canceled_at = none;
  write_works = true;
  incoming = answer n;
}

connect-IsOpened_example :
    IsOpened []
      (λ s. s)
      (connect 0 crypto net []
        (λ s. s)
        (env 12)
        (env 4)
        (λ n. env 0)
        5
        dial_options
        (65 ∷ [])
        (66 ∷ [])
        options)
connect-IsOpened_example =
    connect-IsOpened [] (λ s. s) 0 crypto net (λ key text. refl) (env 12) (env 4) (λ n. env 0) 5
      dial_options (65 ∷ []) (66 ∷ []) options
