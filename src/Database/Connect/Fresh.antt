-- ===== src/Database/Connect/Fresh.antt =====
-- The connection that Connect gives, in every environment.
use jt400_go.Prelude.{
  ℕ, ◌≡◌, refl, ap, inl, inr, Bool, true, false, none, some, [], ◌∷◌, length, if◌then◌else◌, arith,
}
use jt400_go.Go.{Result, ok, err, panic, stuck, returns, Bytes}
use jt400_go.Go.Strings.{codes, is_nil}
use jt400_go.Go.Outcome.{returns-cases, returns->>=, wrap-returns, if-returns}
use jt400_go.As400.Conn.{Connection, Env}
use jt400_go.As400.Datastream.{server_database}
use jt400_go.As400.Dial.{DialError, DialOptions, Network, dial, with_port}
use jt400_go.As400.Service.Opening.{dial-returns}
use jt400_go.As400.Logon.Session.{SessionError, StartServerSession, logon}
use jt400_go.As400.Logon.Total.{logon-returns}
use jt400_go.Auth.Ebcdic.Laws.{encode_ebcdic-returns}
use jt400_go.Auth.Password.{Crypto}
use jt400_go.Database.Ccsid.{Registry, encode_string-returns, decode_server_text}
use jt400_go.Database.Wire.{DbRequest, DbReply, failed}
use jt400_go.Database.Conn.{Session, DbError, db_call, server_error, op_set_attributes}
use jt400_go.Database.Conn.Calls.{ended, db_call_usable}
use jt400_go.Database.Setup.{
  SetupError, ServerFacts, add_schema, attributes_request, facts_of, set_server_attributes,
  parse_server_attributes, bad_schema, bad_level, set_attributes_failed,
}
use jt400_go.Database.Setup.Safe.{parse_server_attributes-returns}
use jt400_go.Database.Connect.{
  Options, Opened, new_session, set_up, logged_on, dialled, connect, with_defaults,
  port_database_plain, port_database_secure,
}

module _ (registry : Registry) (trim_space : Bytes → Bytes) where
  add_schema-returns :
      (schema : Bytes) (req : DbRequest)
      → returns (add_schema registry trim_space schema req) ≡ true
  unfolding add_schema
  add_schema-returns schema req = if-returns (is_nil schema) _ _ refl (
      returns->>= _ _ (wrap-returns bad_schema _ (encode_string-returns registry _ schema))
        (λ b e. refl))

  attributes_request-returns :
      (naming : Bool) (schema : Bytes)
      → returns (attributes_request registry trim_space naming schema) ≡ true
  unfolding attributes_request
  attributes_request-returns naming schema =
      returns->>= _ _ (wrap-returns bad_level _ (encode_ebcdic-returns (codes "V7R2M01   ")))
        λ level e. returns->>= _ _ (add_schema-returns schema _) (λ req e'. refl)

  -- A session that is usable and outside a transaction, holds no handle, and has sent `req` alone.
  abbrev pub IsFresh : Session → DbRequest → Type 0
  IsFresh s req =
      (s.closed ≡ false)
      × (s.broken ≡ false)
      × (s.in_tx ≡ false)
      × ((j : ℕ) → s.ids j ≡ false)
      × (s.log ≡ req ∷ [])

  module _ {Location : Type 0} where
    -- What Connect leaves: a fresh connection that is open and has sent the request for its
    -- attributes, or an error and no connection that is open.
    abbrev pub IsOpened : Opened Location → Type 0
    IsOpened (some closed, ok c) =
        (closed ≡ false)
        × ((req : DbRequest) × (attributes_request registry trim_space c.opts.system_naming
                c.opts.default_schema
              ≡ ok req)
            × IsFresh c.session req)
    IsOpened (none, ok c) = ⊥
    IsOpened (some closed, err e) = closed ≡ true
    IsOpened (none, err e) = Unit {0}
    IsOpened (closed, panic) = ⊥
    IsOpened (closed, stuck) = ⊥

    set_up-IsOpened :
        (opts : Options Location) (req : DbRequest) (s : Session)
        (r : Result SetupError ServerFacts)
        → attributes_request registry trim_space opts.system_naming opts.default_schema ≡ ok req
        → IsFresh s req
        → returns r ≡ true
        → IsOpened (set_up opts (s, r))
    unfolding set_up
    set_up-IsOpened opts req s (ok facts) made fresh h = (refl, (req, made, fresh))
    set_up-IsOpened opts req s (err e) made fresh h = refl
    set_up-IsOpened opts req s panic made fresh h = cc
    set_up-IsOpened opts req s stuck made fresh h = cc

    facts_of-IsOpened :
        (opts : Options Location) (req : DbRequest) (t : Session × Result DbError DbReply)
        → attributes_request registry trim_space opts.system_naming opts.default_schema ≡ ok req
        → ended t ≡ true
        → (t.0.broken ≡ false → IsFresh t.0 req)
        → IsOpened (set_up opts (facts_of registry trim_space t))
    unfolding facts_of set_up
    facts_of-IsOpened opts req (s, ok rep) made h fresh =
        set_up-IsOpened opts req s
          (if failed rep
            then err (set_attributes_failed (server_error op_set_attributes rep))
            else parse_server_attributes registry trim_space rep.server_attributes)
          made (fresh (ground arith))
          (if-returns (failed rep) _ _ refl
            (parse_server_attributes-returns registry trim_space rep.server_attributes))
    facts_of-IsOpened opts req (s, err e) made h fresh = refl
    facts_of-IsOpened opts req (s, panic) made h fresh = cc
    facts_of-IsOpened opts req (s, stuck) made h fresh = cc

    -- Behind the logon.
    attributes-IsOpened :
        (opts : Options Location) (c : Connection) (env : ℕ → Env)
        → IsOpened (
            set_up opts (
              set_server_attributes registry trim_space
                (new_session c env)
                opts.system_naming
                opts.default_schema))
    unfolding set_server_attributes new_session set_up
    attributes-IsOpened opts c env =
        let s = new_session c env in
        elim (returns-cases
          (attributes_request registry trim_space opts.system_naming opts.default_schema)
          (attributes_request-returns opts.system_naming opts.default_schema)) [
            | inl (req, made) ↦
                let (over, logged, counted, same) =
                  db_call_usable (decode_server_text registry) s req refl refl in
                rw made (
                  facts_of-IsOpened opts req (db_call (decode_server_text registry) s req) made over
                    (λ usable.
                      (same.1, usable, same.0, λ j. ap (λ (f : ℕ → Bool). f j) same.2, logged)))
            | inr (e, made) ↦ rw made refl
          ]

  module _ {Location : Type 0} (utc : Location) (crypto : Crypto) (net : Network)
      (sized : (key text : Bytes) → length (Crypto.hmac_sha512 crypto key text) ≡ 64) where
    logged_on-IsOpened :
        (opts : Options Location) (env : ℕ → Env) (c : Connection)
        (r : Result SessionError StartServerSession)
        → returns r ≡ true
        → IsOpened (logged_on utc crypto net registry trim_space opts env c r)
    unfolding logged_on
    logged_on-IsOpened opts env c (ok session) h = attributes-IsOpened opts c env
    logged_on-IsOpened opts env c (err e) h = refl
    logged_on-IsOpened opts env c panic h = cc
    logged_on-IsOpened opts env c stuck h = cc

    dialled-IsOpened :
        (env1 env2 : Env) (env : ℕ → Env) (now : ℕ) (user_id password : Bytes)
        (opts : Options Location) (m : Result DialError Connection)
        → returns m ≡ true
        → IsOpened
            (dialled utc crypto net registry trim_space env1 env2 env now user_id password opts m)
    unfolding dialled
    dialled-IsOpened env1 env2 env now user_id password opts (ok c) h =
        let t = logon crypto c env1 env2 now server_database user_id password in
        logged_on-IsOpened opts env t.0 t.2
          (logon-returns crypto sized c env1 env2 now server_database user_id password)
    dialled-IsOpened env1 env2 env now user_id password opts (err e) h = tt
    dialled-IsOpened env1 env2 env now user_id password opts panic h = cc
    dialled-IsOpened env1 env2 env now user_id password opts stuck h = cc

    -- Connect ends in every environment with a connection or an error, if the sums of HMAC have 64
    -- bytes. A connection is open, usable, outside a transaction and holds no handle, and behind the
    -- logon it has sent exactly the request for the attributes of its options; with an error no
    -- connection is left open.
    pub connect-IsOpened :
        (env1 env2 : Env) (env : ℕ → Env) (now : ℕ) (options : DialOptions)
        (user_id password : Bytes) (opts : Options Location)
        → IsOpened (
            connect utc crypto net registry trim_space env1 env2 env now options user_id password
              opts)
    unfolding connect
    connect-IsOpened env1 env2 env now options user_id password opts =
        dialled-IsOpened env1 env2 env now user_id password (with_defaults utc opts)
          (dial net (with_port port_database_plain port_database_secure options))
          (dial-returns net (with_port port_database_plain port_database_secure options))
