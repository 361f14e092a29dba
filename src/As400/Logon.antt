-- ===== src/As400/Logon.antt =====
-- as400/logon.go: the two requests of the host server logon and their replies.
pub mod Laws
pub mod Session
pub mod Frames
pub mod Total
mod Runs
use jt400_go.Prelude.{
  ℕ, ◌≡◌, refl, true, not, Option, none, some, [], ◌∷◌, ◌++◌, arith, ltb, leb, ◌==◌, if◌then◌else◌,
  length,
}
use jt400_go.Go.{Result, ok, err, ◌>>=◌, wrap, returns, Bytes, slice}
use jt400_go.Go.Fields.{slice_ok}
use jt400_go.As400.Error.{WireError}
use jt400_go.As400.Params.{encode_param, decode_params, find}
use jt400_go.As400.Datastream.{Request, Reply, attr_header_id, return_code, server_attr}
use jt400_go.Auth.Ebcdic.{decode_trimmed}

-- The errors of the file, one constructor for each place.
pub data LogonError : Type 0 where
  too_short missing_server_seed : LogonError
  failed : ℕ → LogonError
  decode_reply : WireError → LogonError

-- buildXChgRandSeedRequest
unfoldable pub build_xchg_rand_seed_request : ℕ → Bytes → Request
unfolding attr_header_id
build_xchg_rand_seed_request server_id client_seed = record {
  server_id = server_id;
  header_id = attr_header_id 0x03;
  correlation = 0;
  template_len = 8;
  req_rep_id = 0x7001;
  body = client_seed;
}

-- The checks of a reply's return code.
unfoldable pub checked : Reply → Option ℕ → Result LogonError (Unit {0})
checked reply none = err too_short
checked reply (some rc) = if not (rc == 0) then err (failed rc) else ok tt

-- parseXChgRandSeedReply: the seed and the password level.
unfoldable pub parse_xchg_rand_seed_reply : Reply → Result LogonError (Bytes × ℕ)
unfolding checked
parse_xchg_rand_seed_reply reply = return_code reply >>= λ rc. checked reply rc >>= λ u.
    if ltb (length reply.body) 12
    then err missing_server_seed
    else (slice reply.body 4 12 >>= λ seed. ok (seed, server_attr reply))

-- buildStartServerRequest
unfoldable pub build_start_server_request : ℕ → Bytes → Bytes → Request
unfolding attr_header_id
build_start_server_request server_id user_id_bytes auth_bytes =
    let auth_type =
      if length auth_bytes == 8 then 0x01 else if length auth_bytes == 20 then 0x03 else 0x07 in
    record {
      server_id = server_id;
      header_id = attr_header_id 0x02;
      correlation = 0;
      template_len = 2;
      req_rep_id = 0x7002;
      body =
          auth_type
          ∷ 0x01
          ∷ (encode_param (record { code_point = 0x1105; content = auth_bytes })
              ++ encode_param (record { code_point = 0x1104; content = user_id_bytes }));
    }

-- The job name of a start-server reply: behind a CCSID of four bytes.
unfoldable pub job_name : Option Bytes → Result LogonError Bytes
job_name none = ok []
job_name (some d) =
    if leb 4 (length d) then (slice d 4 (length d) >>= λ t. ok (decode_trimmed t)) else ok []

-- parseStartServerReply
unfoldable pub parse_start_server_reply : Reply → Result LogonError Bytes
unfolding checked job_name
parse_start_server_reply reply = return_code reply >>= λ rc. checked reply rc >>= λ u.
    if ltb (length reply.body) 4
    then ok []
    else (slice reply.body 4 (length reply.body) >>= λ rest.
        wrap decode_reply (decode_params rest) >>= λ params. job_name (find params 0x111F))

job_name-returns : (o : Option Bytes) → returns (job_name o) ≡ true
unfolding job_name
job_name-returns none = refl
job_name-returns (some d) = ground (arith, slice_ok {E = LogonError} d 4 (length d))
