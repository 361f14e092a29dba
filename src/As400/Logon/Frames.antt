-- ===== src/As400/Logon/Frames.antt =====
-- The frames that Logon writes.
use jt400_go.Prelude.{
  ℕ, ◌≡◌, refl, ap, ◌∙◌, ◌⊎◌, inl, inr, Option, none, some, List, [], ◌∷◌, ◌++◌, true, append-nil,
}
use jt400_go.Go.{Result, ok, err, panic, stuck, ◌>>=◌, Bytes, be64}
use jt400_go.Go.Outcome.{>>=-eq-ok}
use jt400_go.As400.Conn.{Connection, Env, Event, ConnError, call, next_correlation}
use jt400_go.As400.Conn.Exchange.{
  written, written-append, exchange_writes, exchange-AsTransfer, transfer_writes,
}
use jt400_go.As400.Datastream.{Request, Reply, encode}
use jt400_go.As400.Logon.{build_xchg_rand_seed_request}
use jt400_go.As400.Logon.Session.{
  SessionError, replied, seeds_failed, start_request, finished, started, logon,
}
use jt400_go.Auth.Password.{Crypto}

-- The frame of a request under an ID.
abbrev pub frame : ℕ → Request → Bytes
frame id req = encode (record req { correlation = id })

-- A call that gives a reply has written its request, under the next ID.
pub call-written :
    (c : Connection) (env : Env) (req : Request) (reply : Reply)
    → (call c env req).2 ≡ ok (some reply)
    → (written (call c env req).1 ≡ frame (next_correlation c.correlation) req ∷ [])
      × ((call c env req).0.correlation ≡ next_correlation c.correlation)
unfolding call
call-written c env req reply h = elim (exchange-AsTransfer c env req true) [
  | inl (e, left) ↦ cc
  | inr (kept, gave, wrote, read_on) ↦
      let (sent, counted, back) = transfer_writes c env req true in
      (wrote ∙ sent, ap (λ (k : Connection). k.correlation) kept ∙ counted)
]

-- Nothing, or the one frame.
pub call-at_most :
    (c : Connection) (env : Env) (req : Request)
    → (written (call c env req).1 ≡ [])
      ⊎ (written (call c env req).1 ≡ frame (next_correlation c.correlation) req ∷ [])
unfolding call
call-at_most c env req = elim (exchange_writes c env req true) [
  | inl kept ↦ inl kept.0
  | inr sent ↦ inr sent.0
]

-- The second half writes nothing, or the frame of the request that it was given.
started-written :
    (c : Connection) (events : List Event) (env : Env) (m : Result SessionError (ℕ × Request))
    → (written (started c events env m).1 ≡ written events)
      ⊎ ((level : ℕ) × (req : Request) × (m ≡ ok (level, req))
          × (written (started c events env m).1
              ≡ written events ++ (frame (next_correlation c.correlation) req ∷ [])))
unfolding started finished
started-written c events env (ok (level, req)) =
    let both = written-append events (call c env req).1 in
    elim (call-at_most c env req) [
      | inl nothing ↦ inl (
          both
          ∙ ap (λ (ws : List Bytes). written events ++ ws) nothing
          ∙ append-nil (written events))
      | inr one ↦ inr (level, req, refl, both ∙ ap (λ (ws : List Bytes). written events ++ ws) one)
    ]
started-written c events env (err e) = inl refl
started-written c events env panic = inl refl
started-written c events env stuck = inl refl

replied-some :
    (r : Result ConnError (Option Reply)) (f : ConnError → SessionError) (reply : Reply)
    → replied r f ≡ ok reply
    → r ≡ ok (some reply)
replied-some (ok none) f reply h = cc
replied-some (ok (some reply')) f reply h = cc
replied-some (err e) f reply h = cc
replied-some panic f reply h = cc
replied-some stuck f reply h = cc

module _ (crypto : Crypto) (c : Connection) (env1 env2 : Env) (now server_id : ℕ)
    (user_id password : Bytes) where
  -- The frame that asks for the server's seed, under the next ID.
  abbrev pub seeds_frame : Bytes
  seeds_frame =
      frame (next_correlation c.correlation) (build_xchg_rand_seed_request server_id (be64 now))

  -- Logon writes nothing, or the request for the server's seed, or this request and then the one that
  -- starts the server; the latter it writes only behind a reply to the first, as the request made of
  -- that reply's seed and level and of the credentials, under the ID after the first.
  pub logon_frames :
      (written (logon crypto c env1 env2 now server_id user_id password).1 ≡ [])
      ⊎ ((written (logon crypto c env1 env2 now server_id user_id password).1 ≡ seeds_frame ∷ [])
          ⊎ ((reply : Reply) × (level : ℕ) × (req : Request) × ((call c env1
                  (build_xchg_rand_seed_request server_id (be64 now))).2
                ≡ ok (some reply))
              × (start_request crypto server_id user_id password (be64 now) reply ≡ ok (level, req))
              × (written (logon crypto c env1 env2 now server_id user_id password).1
                  ≡ seeds_frame
                    ∷ frame (next_correlation (next_correlation c.correlation)) req
                    ∷ [])))
  unfolding logon
  logon_frames =
      let seeds = build_xchg_rand_seed_request server_id (be64 now) in
      let t = call c env1 seeds in
      let m =
        replied t.2 seeds_failed >>= start_request crypto server_id user_id password (be64 now) in
      elim (started-written t.0 t.1 env2 m) [
        | inl same ↦ elim (call-at_most c env1 seeds) [
          | inl nothing ↦ inl (same ∙ nothing)
          | inr one ↦ inr (inl (same ∙ one))
        ]
        | inr second ↦
            let (level, req, made, wrote) = second in
            let (reply, e, f) = >>=-eq-ok (replied t.2 seeds_failed) _ made in
            let answered = replied-some t.2 seeds_failed reply e in
            let (asked, counted) = call-written c env1 seeds reply answered in
            let whole : written (logon crypto c env1 env2 now server_id user_id password).1
                ≡ seeds_frame ∷ frame (next_correlation (next_correlation c.correlation)) req ∷ [] =
              wrote
              ∙ (ap (λ (k : ℕ). written t.1 ++ (frame (next_correlation k) req ∷ [])) counted
                  ∙ ap
                      (λ (ws : List Bytes).
                        ws ++ (frame (next_correlation (next_correlation c.correlation)) req ∷ []))
                      asked) in
            inr (inr (reply, level, req, answered, f, whole))
      ]
