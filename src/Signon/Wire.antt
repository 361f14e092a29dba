-- ===== src/Signon/Wire.antt =====
-- signon/wire.go: the exchange of attributes and the sign-on.
-- parseSignonDate calls time.Date, which is the parameter `date`.
pub mod Replies
use jt400_go.Prelude.{
  ℕ, ◌+◌, Bool, false, not, Option, none, some, [], ◌∷◌, ◌++◌, ltb, leb, ◌==◌, if◌then◌else◌,
  length, replicate,
}
use jt400_go.Prelude.Int.{ℤ, pos}
use jt400_go.Go.{
  Result, ok, err, ◌>>=◌, wrap, Bytes, slice, byte_at, uint16, uint32, be16, be32, signed32,
}
use jt400_go.As400.Error.{WireError}
use jt400_go.As400.Params.{Param, encode_param, encode_params, decode_params, find}
use jt400_go.As400.Datastream.{Request, Reply, return_code, server_signon}
use jt400_go.Auth.Ebcdic.{decode_trimmed}

-- The errors of the file, one constructor for each place; `failed` is signonError's.
pub data SignonError : Type 0 where
  too_short missing_fields : SignonError
  exchange_failed failed : ℕ → SignonError
  decode_reply : WireError → SignonError

-- exchangeAttributes
pub record ExchangeAttributes : Type 0 where
  pub server_version : ℕ
  pub server_level : ℕ
  pub server_seed : Bytes
  pub password_level : ℕ
  pub job_name : Bytes
  pub aaf_indicator : Bool

abbrev field : ℕ → Bytes → Param
field cp d = record { code_point = cp; content = d }

abbrev signon_request : ℕ → ℕ → Bytes → Request
signon_request req_rep_id template_len body = record {
  server_id = server_signon;
  header_id = 0;
  correlation = 0;
  template_len = template_len;
  req_rep_id = req_rep_id;
  body = body;
}

-- buildExchangeAttributeRequest
unfoldable pub build_exchange_attribute_request : Bytes → Request
build_exchange_attribute_request client_seed =
    signon_request 0x7003 0 (
      encode_params (field 0x1101 (be32 1) ∷ field 0x1102 (be16 0) ∷ field 0x1103 client_seed ∷ []))

-- A field that is used if it has the length, and what stands for one that has not.
unfoldable pub with_field :
    {E A : Type 0} → Option Bytes → ℕ → A → (Bytes → Result E A) → Result E A
with_field none n a f = ok a
with_field (some d) n a f = if leb n (length d) then f d else ok a

-- parseExchangeAttributeReply
unfoldable pub parse_exchange_attribute_reply : Reply → Result SignonError ExchangeAttributes
unfolding with_field
parse_exchange_attribute_reply reply = do
  rc ← return_code reply
  let body = reply.body
  let fixed : Result SignonError (Unit {0}) = elim rc [
    | none ↦ err too_short
    | some c ↦
        if not (c == 0)
        then err (exchange_failed c)
        else if ltb (length body) 22
        then err missing_fields
        else ok tt
  ]
  checked ← fixed
  server_version ← uint32 body 10
  server_level ← uint16 body 20
  rest ← slice body 22 (length body)
  params ← wrap decode_reply (decode_params rest)
  seed ← with_field (find params 0x1103) 8 (replicate 8 0) (λ d. slice d 0 8)
  level ← with_field (find params 0x1119) 1 0 (λ d. byte_at d 0)
  job ←
      with_field (find params 0x111F) 4 []
        (λ d. slice d 4 (length d) >>= λ t. ok (decode_trimmed t))
  aaf ← with_field (find params 0x112E) 1 false (λ d. byte_at d 0 >>= λ b. ok (b == 1))
  ok (record {
    server_version = server_version;
    server_level = server_level;
    server_seed = seed;
    password_level = level;
    job_name = job;
    aaf_indicator = aaf;
  })

-- The password scheme's byte, by the length of the authentication bytes.
unfoldable pub auth_type : Bytes → ℕ
auth_type auth_bytes =
    if length auth_bytes == 8 then 0x01 else if length auth_bytes == 20 then 0x03 else 0x07

-- buildSignonInfoRequest
unfoldable pub build_signon_info_request : Bytes → Bytes → ℕ → Request
unfolding auth_type
build_signon_info_request user_id_bytes auth_bytes server_level = signon_request 0x7004 1 (
    auth_type auth_bytes
    ∷ (encode_param (field 0x1113 (be32 1200))
        ++ (encode_param (field 0x1105 auth_bytes)
            ++ (encode_param (field 0x1104 user_id_bytes)
                ++ (if leb 5 server_level then encode_param (field 0x1128 (1 ∷ [])) else [])))))

module _ {Time : Type 0} (date : ℕ → ℕ → ℕ → ℕ → ℕ → ℕ → Time) (zero_time : Time) where
  -- SignonInfo
  pub record SignonInfo : Type 0 where
    pub current_signon_date : Time
    pub last_signon_date : Time
    pub expiration_date : Time
    pub warning_days : ℤ
    pub server_ccsid : ℕ
    pub user_id : Bytes

  -- parseSignonDate, on a field that is there; a short one leaves the zero time.
  unfoldable pub parse_signon_date : {E : Type 0} → Option Bytes → Result E Time
  unfolding with_field
  parse_signon_date o = with_field o 7 zero_time λ d. do
    year ← uint16 d 0
    month ← byte_at d 2
    day ← byte_at d 3
    hour ← byte_at d 4
    minute ← byte_at d 5
    sec ← byte_at d 6
    ok (date year month day hour minute sec)

  -- parseSignonInfoReply
  unfoldable pub parse_signon_info_reply : Reply → Result SignonError SignonInfo
  unfolding parse_signon_date with_field
  parse_signon_info_reply reply = do
    rc ← return_code reply
    let body = reply.body
    let fixed : Result SignonError (Unit {0}) = elim rc [
      | none ↦ err too_short
      | some c ↦
          if not (c == 0)
          then err (failed c)
          else if ltb (length body) 4
          then err missing_fields
          else ok tt
    ]
    checked ← fixed
    rest ← slice body 4 (length body)
    params ← wrap decode_reply (decode_params rest)
    current ← parse_signon_date (find params 0x1106)
    last ← parse_signon_date (find params 0x1107)
    expiration ← parse_signon_date (find params 0x1108)
    ccsid ← with_field (find params 0x1114) 4 0 (λ d. uint32 d 0)
    user ← with_field (find params 0x1104) 14 [] (λ d. slice d 4 14 >>= λ u. ok (decode_trimmed u))
    days ← with_field (find params 0x112C) 4 (pos 0) (λ d. uint32 d 0 >>= λ n. ok (signed32 n))
    ok (record {
      current_signon_date = current;
      last_signon_date = last;
      expiration_date = expiration;
      warning_days = days;
      server_ccsid = ccsid;
      user_id = user;
    })
