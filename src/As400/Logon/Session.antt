-- ===== src/As400/Logon/Session.antt =====
-- as400/logon.go: Logon, on a connection and the environments of its two exchanges. `now` is
-- time.Now().UnixMilli() as an unsigned number.
use jt400_go.Prelude.{ℕ, Option, none, some, List, ◌++◌}
use jt400_go.Prelude.Int.{pos}
use jt400_go.Go.{Result, ok, err, panic, stuck, ◌>>=◌, wrap, Bytes, be64}
use jt400_go.As400.Conn.{Connection, Env, Event, ConnError, call}
use jt400_go.As400.Datastream.{Request, Reply}
use jt400_go.As400.Logon.{
  LogonError, build_xchg_rand_seed_request, parse_xchg_rand_seed_reply, build_start_server_request,
  parse_start_server_reply,
}
use jt400_go.Auth.Ebcdic.{EbcdicError, encode_ebcdic10}
use jt400_go.Auth.Password.{Crypto, PasswordError, encrypt_password}

pub data SessionError : Type 0 where
  seeds_failed start_failed : ConnError → SessionError
  bad_reply : LogonError → SessionError
  bad_credentials : PasswordError → SessionError
  bad_user : EbcdicError → SessionError

-- StartServerSession
pub record StartServerSession : Type 0 where
  pub password_level : ℕ
  pub job_name : Bytes

-- The reply of a call; a nil one would panic in the parser.
abbrev pub replied :
    Result ConnError (Option Reply) → (ConnError → SessionError) → Result SessionError Reply
replied (ok none) f = panic
replied (ok (some reply)) f = ok reply
replied (err e) f = err (f e)
replied panic f = panic
replied stuck f = stuck

-- The second half of Logon: the level, and the request, by the reply to the seeds.
unfoldable pub start_request :
    Crypto → ℕ → Bytes → Bytes → Bytes → Reply → Result SessionError (ℕ × Request)
start_request crypto server_id user_id password client_seed reply = do
  (server_seed, level) ← wrap bad_reply (parse_xchg_rand_seed_reply reply)
  auth_bytes ←
      wrap bad_credentials
        (encrypt_password crypto (pos level) user_id password client_seed server_seed)
  user_id_bytes ← wrap bad_user (encode_ebcdic10 (Crypto.to_upper crypto user_id))
  ok (level, build_start_server_request server_id user_id_bytes auth_bytes)

-- The events of a run, and what it gave.
abbrev pub Run : Type 0 → Type 0
Run A = Connection × List Event × Result SessionError A

-- The last part of Logon, on what the second call gave.
unfoldable pub finished :
    ℕ → Connection × List Event × Result ConnError (Option Reply) → Run StartServerSession
finished level (c, events, r) = (
  c,
  events,
  (replied r start_failed >>= λ reply. wrap bad_reply (parse_start_server_reply reply) >>= λ name.
      ok (record { password_level = level; job_name = name })),
)

-- Logon behind its first call.
unfoldable pub started :
    Connection → List Event → Env → Result SessionError (ℕ × Request) → Run StartServerSession
unfolding finished
started c events env (ok (level, req)) =
    let (c', more, r) = finished level (call c env req) in (c', events ++ more, r)
started c events env (err e) = (c, events, err e)
started c events env panic = (c, events, panic)
started c events env stuck = (c, events, stuck)

-- Logon
unfoldable pub logon :
    Crypto → Connection → Env → Env → ℕ → ℕ → Bytes → Bytes → Run StartServerSession
unfolding start_request started
logon crypto c env1 env2 now server_id user_id password =
    let client_seed = be64 now in
    let (c', events, r) = call c env1 (build_xchg_rand_seed_request server_id client_seed) in
    started c' events env2
      (replied r seeds_failed >>= start_request crypto server_id user_id password client_seed)
