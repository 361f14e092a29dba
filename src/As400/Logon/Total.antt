-- ===== src/As400/Logon/Total.antt =====
-- Logon ends with a session or an error in every environment.
use jt400_go.Prelude.{ℕ, ◌≡◌, refl, true, Option, none, some, List, length}
use jt400_go.Prelude.Int.{pos}
use jt400_go.Go.{Result, ok, err, panic, stuck, ◌>>=◌, returns, Bytes, be64}
use jt400_go.Go.Outcome.{returns->>=, wrap-returns}
use jt400_go.As400.Conn.{Connection, Env, Event, ConnError, call}
use jt400_go.As400.Conn.Exchange.{answers, call-answers}
use jt400_go.As400.Datastream.{Request, Reply}
use jt400_go.As400.Logon.{build_xchg_rand_seed_request}
use jt400_go.As400.Logon.Laws.{logon_replies-returns}
use jt400_go.As400.Logon.Session.{
  SessionError, replied, seeds_failed, start_failed, bad_reply, bad_credentials, bad_user,
  start_request, finished, started, logon,
}
use jt400_go.Auth.Password.{Crypto}
use jt400_go.Auth.Password.Total.{encode_ebcdic10-returns, encrypt_password-returns}

replied-returns :
    (r : Result ConnError (Option Reply)) (f : ConnError → SessionError)
    → answers r ≡ true
    → returns (replied r f) ≡ true
replied-returns (ok none) f h = cc
replied-returns (ok (some reply)) f h = refl
replied-returns (err e) f h = refl
replied-returns panic f h = cc
replied-returns stuck f h = cc

finished-returns :
    (level : ℕ) (c : Connection) (env : Env) (req : Request)
    → returns (finished level (call c env req)).2 ≡ true
unfolding finished
finished-returns level c env req =
    returns->>= _ _ (replied-returns _ start_failed (call-answers c env req)) λ reply e.
      returns->>= _ _ (wrap-returns bad_reply _ (logon_replies-returns reply).1) (λ name e'. refl)

started-returns :
    (c : Connection) (events : List Event) (env : Env) (m : Result SessionError (ℕ × Request))
    → returns m ≡ true
    → returns (started c events env m).2 ≡ true
unfolding started
started-returns c events env (ok (level, req)) h = finished-returns level c env req
started-returns c events env (err e) h = refl
started-returns c events env panic h = cc
started-returns c events env stuck h = cc

module _ (crypto : Crypto)
    (sized : (key text : Bytes) → length (Crypto.hmac_sha512 crypto key text) ≡ 64) where
  start_request-returns :
      (server_id : ℕ) (user_id password client_seed : Bytes) (reply : Reply)
      → returns (start_request crypto server_id user_id password client_seed reply) ≡ true
  unfolding start_request
  start_request-returns server_id user_id password client_seed reply =
      returns->>= _ _ (wrap-returns bad_reply _ (logon_replies-returns reply).0) λ seed e.
        returns->>= _ _
          (wrap-returns bad_credentials _ (
            encrypt_password-returns crypto sized user_id password client_seed seed.0 (pos seed.1)))
          λ bytes e'.
            returns->>= _ _
              (wrap-returns bad_user _ (encode_ebcdic10-returns (Crypto.to_upper crypto user_id)))
              (λ user e''. refl)

  -- Logon ends with a session or an error in every environment and whatever the server sends, if the
  -- sums of HMAC have 64 bytes.
  pub logon-returns :
      (c : Connection) (env1 env2 : Env) (now server_id : ℕ) (user_id password : Bytes)
      → returns (logon crypto c env1 env2 now server_id user_id password).2 ≡ true
  unfolding logon
  logon-returns c env1 env2 now server_id user_id password =
      let seeds = build_xchg_rand_seed_request server_id (be64 now) in
      let t = call c env1 seeds in
      started-returns t.0 t.1 env2
        (replied t.2 seeds_failed >>= start_request crypto server_id user_id password (be64 now))
        (returns->>= _ _ (replied-returns t.2 seeds_failed (call-answers c env1 seeds))
          (λ reply e. start_request-returns server_id user_id password (be64 now) reply))
