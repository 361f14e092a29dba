-- ===== src/As400/Logon/Runs.antt =====
-- A logon at a server that answers, and the theorem on the frames of a logon there.
use jt400_go.Prelude.{◌+◌, ℕ, ◌≡◌, refl, ◌⊎◌, none, some, [], ◌∷◌, ◌++◌, replicate, true}
use jt400_go.Go.{Bytes, ok, be64, slice, byte_at, uint16, uint32, be16_at, be32_at}
use jt400_go.Go.Strings.{has_prefix}
use jt400_go.Auth.Password.{
  Crypto, encrypt_password, encrypt_password_sha1, trim_trailing_unicode_space, before_trimmed,
}
use jt400_go.As400.Logon.Session.{logon, start_request, started, finished}
use jt400_go.As400.Conn.Exchange.{written}
use jt400_go.As400.Conn.{
  Env, Connection, call, next_correlation, exchange, exchange_deadline, under_deadline, watched,
  transfer,
}
use jt400_go.As400.Logon.Frames.{seeds_frame, frame, logon_frames}
use jt400_go.As400.Datastream.{Reply, Request, read_reply, read_full, return_code, server_attr}
use jt400_go.As400.Logon.{
  build_xchg_rand_seed_request, parse_xchg_rand_seed_reply, checked, build_start_server_request,
  parse_start_server_reply, job_name,
}
use jt400_go.As400.Params.{decode_params, decode_params_loop, find}
use jt400_go.Auth.Ebcdic.{
  encode_ebcdic10, encode_ebcdic_padded, encode_ebcdic, lookup, ascii_to_ebcdic, run,
}

abbrev crypto : Crypto
crypto = record {
  to_upper = λ s. s;
  enc_des = λ key block. replicate 8 7;
  sha1 = λ text. replicate 20 1;
  sha256 = λ text. replicate 32 2;
  sha512 = λ text. replicate 64 3;
  hmac_sha512 = λ key text. replicate 64 4;
}

abbrev connection : Connection
connection = record { correlation = 0; io_timeout = 0 }

-- A reply with the password level 3 and a body of n zeros: the return code, a seed.
abbrev answer : ℕ → Bytes
answer n =
    (0
      ∷ 0
      ∷ 0
      ∷ (20 + n)
      ∷ 0
      ∷ 3
      ∷ 0xE0
      ∷ 8
      ∷ 0
      ∷ 0
      ∷ 0
      ∷ 0
      ∷ 0
      ∷ 0
      ∷ 0
      ∷ 1
      ∷ 0
      ∷ 12
      ∷ 0xF0
      ∷ 1
      ∷ [])
    ++ replicate n 0

abbrev env : ℕ → Env
env n = record {
  ctx_before = none;
  ctx_after = none;
  ctx_deadline = none;
  now = 0;
  now_after = 0;
  set_deadline_works = true;
  canceled_at = none;
  write_works = true;
  incoming = answer n;
}

logon_run :
    (logon crypto connection (env 12) (env 4) 5 0xE008 (65 ∷ []) (66 ∷ [])).2
    ≡ ok (record { password_level = 3; job_name = [] })
unfolding logon call exchange exchange_deadline under_deadline watched transfer read_reply read_full
    started finished start_request parse_xchg_rand_seed_reply checked return_code server_attr slice
    byte_at uint16 uint32 be16_at be32_at build_start_server_request parse_start_server_reply
    job_name decode_params decode_params_loop find encrypt_password encrypt_password_sha1
    encode_ebcdic10 encode_ebcdic_padded encode_ebcdic lookup ascii_to_ebcdic run
    trim_trailing_unicode_space before_trimmed has_prefix
logon_run = refl

logon_frames_example :
    (written (logon crypto connection (env 12) (env 4) 5 0xE008 (65 ∷ []) (66 ∷ [])).1 ≡ [])
    ⊎ ((written (logon crypto connection (env 12) (env 4) 5 0xE008 (65 ∷ []) (66 ∷ [])).1
          ≡ seeds_frame crypto connection (env 12) (env 4) 5 0xE008 (65 ∷ []) (66 ∷ []) ∷ [])
        ⊎ ((reply : Reply) × (level : ℕ) × (req : Request) × ((call connection
                (env 12)
                (build_xchg_rand_seed_request 0xE008 (be64 5))).2
              ≡ ok (some reply))
            × (start_request crypto 0xE008 (65 ∷ []) (66 ∷ []) (be64 5) reply ≡ ok (level, req))
            × (written (logon crypto connection (env 12) (env 4) 5 0xE008 (65 ∷ []) (66 ∷ [])).1
                ≡ seeds_frame crypto connection (env 12) (env 4) 5 0xE008 (65 ∷ []) (66 ∷ [])
                  ∷ frame (next_correlation (next_correlation 0)) req
                  ∷ [])))
logon_frames_example = logon_frames crypto connection (env 12) (env 4) 5 0xE008 (65 ∷ []) (66 ∷ [])
