-- ===== src/As400/Logon/Laws.antt =====
-- The logon's replies on any bytes, and what its start-server request carries.
use jt400_go.Prelude.{
  ℕ, ◌+◌, ◌-◌, ◌^◌, ◌<◌, ◌≡◌, refl, sym, ap, ◌∙◌, inl, inr, true, Option, none, some, [], ◌∷◌, ◌++◌,
  append-nil, arith, ltb, Bool-cases, length, take, drop,
}
use jt400_go.Go.{ok, returns, Bytes}
use jt400_go.Go.Fields.{slice_ok, uint32_ok}
use jt400_go.Go.Outcome.{returns->>=, wrap-returns}
use jt400_go.As400.Params.{Param, encode_param, encode_params, decode_params, find}
use jt400_go.As400.Params.Walk.{decode_params-returns}
use jt400_go.As400.Params.Laws.{decode_params-encode_params}
use jt400_go.As400.Datastream.{Reply, return_code}
use jt400_go.As400.Logon.{
  LogonError, decode_reply, checked, parse_xchg_rand_seed_reply, build_start_server_request,
  parse_start_server_reply, job_name-returns,
}

return_code-returns : (r : Reply) → returns (return_code {E = LogonError} r) ≡ true
unfolding return_code
return_code-returns r = ground (arith, uint32_ok {E = LogonError} r.body 0)

checked-returns : (r : Reply) (rc : Option ℕ) → returns (checked r rc) ≡ true
unfolding checked
checked-returns r none = refl
checked-returns r (some rc) = ground arith

seed-returns : (r : Reply) → returns (parse_xchg_rand_seed_reply r) ≡ true
unfolding parse_xchg_rand_seed_reply
seed-returns r = returns->>= _ _ (return_code-returns r) λ rc e.
    returns->>= _ _ (checked-returns r rc)
      λ u e'. ground (arith, slice_ok {E = LogonError} r.body 4 12)

start-returns : (r : Reply) → returns (parse_start_server_reply r) ≡ true
unfolding parse_start_server_reply
start-returns r = returns->>= _ _ (return_code-returns r) λ rc e.
    returns->>= _ _ (checked-returns r rc) λ u e'. elim (Bool-cases (ltb (length r.body) 4)) [
      | inl short ↦ rw short
      | inr long ↦
          rw (long, slice_ok {E = LogonError} r.body 4 (length r.body) (ground arith) (omega arith))
            (returns->>= _ _
              (wrap-returns decode_reply _
                (decode_params-returns (take (length r.body - 4) (drop 4 r.body))))
              λ ps e''. job_name-returns (find ps 0x111F))
    ]

-- Both replies of the logon are parsed without a panic, whatever the server sends.
pub logon_replies-returns :
    (r : Reply)
    → (returns (parse_xchg_rand_seed_reply r) ≡ true)
      × (returns (parse_start_server_reply r) ≡ true)
logon_replies-returns r = (seed-returns r, start-returns r)

abbrev pub entry : ℕ → Bytes → Param
entry cp d = record { code_point = cp; content = d }

-- The start-server request carries the password substitute and the user ID, as entries behind two
-- bytes: DecodeParams finds both under their code points, for lengths that fit 32 bits.
pub start_server_request_fields :
    (server_id : ℕ) (user auth : Bytes)
    → 6 + length user < 2 ^ 32
    → 6 + length auth < 2 ^ 32
    → decode_params (drop 2 (build_start_server_request server_id user auth).body)
      ≡ ok (entry 0x1105 auth ∷ entry 0x1104 user ∷ [])
unfolding build_start_server_request encode_params
start_server_request_fields server_id user auth hu ha =
    ap (λ b. decode_params (encode_param (entry 0x1105 auth) ++ b))
      (sym (append-nil (encode_param (entry 0x1104 user))))
    ∙ decode_params-encode_params (entry 0x1105 auth ∷ entry 0x1104 user ∷ [])
        ((ha, omega arith), ((hu, omega arith), tt))
