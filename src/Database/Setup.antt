-- ===== src/Database/Setup.antt =====
-- database/conn.go: the attributes that Connect sets, and what the server says of itself.
-- strings.TrimSpace is the parameter `trim_space`.
pub mod Safe
mod Runs
use jt400_go.Prelude.{
  ℕ, zero, suc, ◌+◌, ◌-◌, ◌*◌, ◌%◌, ◌^◌, ◌≤◌, ◌≡◌, refl, ◌∙◌, inl, inr, min, Bool, true, false, not,
  ◌&&◌, Option, none, some, [], ◌∷◌, ◌++◌, map, bit_or, bit_and, ltb, leb, ◌==◌, if◌then◌else◌,
  length, arith, Bool-cases,
}
use jt400_go.Prelude.Int.{ℤ, pos, negsuc}
use jt400_go.Go.{
  Result, ok, err, panic, stuck, ◌>>=◌, wrap, returns, Bytes, slice, byte_at, uint16, be16,
}
use jt400_go.Go.Outcome.{returns->>=, if-both}
use jt400_go.Go.Fields.{slice_ok, byte_at_ok, uint16_ok}
use jt400_go.Go.Strings.{codes, is_nil}
use jt400_go.Go.Numbers.{parse_nat}
use jt400_go.Auth.Ebcdic.{EbcdicError, encode_ebcdic}
use jt400_go.Database.Ccsid.{
  Registry, TextError, encode_string, decode_server_text, client_ccsid, ccsid_ebcdic37,
}
use jt400_go.Database.Wire.{
  DbRequest, DbReply, add, add_byte, add_short, add_int, add_text, failed, ors_reply,
  ors_server_attributes,
}
use jt400_go.Database.Conn.{
  Session, DbError, server_error, op_set_attributes, new_request, fn_set_attributes, db_call,
}

pub data SetupError : Type 0 where
  set_attributes_failed : DbError → SetupError
  bad_level : EbcdicError → SetupError
  bad_schema : TextError → SetupError
  attributes_too_short : ℕ → SetupError

-- The fields of Conn that parseServerAttributes sets.
pub record ServerFacts : Type 0 where
  pub server_ccsid : ℕ
  pub vrm : ℕ
  pub functional_level : ℤ
  pub job_id : Bytes

-- zonedText
unfoldable pub zoned_text : Bytes → Bytes
zoned_text s = be16 ccsid_ebcdic37 ++ map (λ c. if c == b' ' then 0x40 else bit_or c 0xF0) s

-- What strconv.Atoi gives beside its error: 0 for what is no number, and the nearest int for a number
-- out of range.
abbrev nearest : Bool → Option ℕ → ℤ
nearest negative none = pos 0
nearest true (some zero) = pos 0
nearest true (some (suc n)) = negsuc (min n (2 ^ 63 - 1))
nearest false (some n) = pos (min n (2 ^ 63 - 1))

unfoldable pub atoi : Bytes → ℤ
atoi [] = pos 0
atoi (c ∷ s) =
    if c == b'-'
    then nearest true (parse_nat s)
    else nearest false (parse_nat (if c == b'+' then s else c ∷ s))

-- The request up to the naming, and its end.
unfoldable pub first_attributes : Bytes → DbRequest
unfolding add add_short add_byte zoned_text
first_attributes level =
    let start =
      add_short (new_request fn_set_attributes (ors_reply + ors_server_attributes)) 0x3801
        client_ccsid in
    let language = add start 0x3802 (zoned_text (codes "2924")) in
    let fixed = be16 ccsid_ebcdic37 ++ (level ++ (0 ∷ 0 ∷ [])) in
    let translated = add_byte (add language 0x3803 fixed) 0x3805 0xF0 in
    let committed = add_short (add_byte (add_short translated 0x3806 1) 0x3824 0xE8) 0x380E 0 in
    add_short (add_short committed 0x3807 5) 0x3809 2

unfoldable pub last_attributes : DbRequest → DbRequest
unfolding add_byte add_int add_short
last_attributes req = add_short (add_int (add_byte req 0x3821 0xF1) 0x3822 32768) 0x3811 1

abbrev pub at_least_five : ℤ → Bool
at_least_five (pos n) = leb 5 n
at_least_five (negsuc n) = false

module _ (registry : Registry) (trim_space : Bytes → Bytes) where
  -- The default schema, if there is one.
  unfoldable pub add_schema : Bytes → DbRequest → Result SetupError DbRequest
  unfolding add_text
  add_schema schema req =
      if is_nil schema
      then ok req
      else (wrap bad_schema (encode_string registry ccsid_ebcdic37 schema) >>= λ b.
          ok (add_text req 0x380F ccsid_ebcdic37 b))

  -- The request of setServerAttributes.
  unfoldable pub attributes_request : Bool → Bytes → Result SetupError DbRequest
  unfolding first_attributes add_schema last_attributes add_short
  attributes_request system_naming schema =
      wrap bad_level (encode_ebcdic (codes "V7R2M01   ")) >>= λ level.
      let named = add_short (first_attributes level) 0x380C (if system_naming then 1 else 0) in
      add_schema schema (add_short named 0x3823 0) >>= λ req. ok (last_attributes req)

  -- The functional level: its last four characters, behind "V7R4M0".
  unfoldable pub level_of : Bytes → Result SetupError ℤ
  unfolding atoi
  level_of level =
      if leb 10 (length level)
      then (slice level 6 (length level) >>= λ s. ok (atoi (trim_space s)))
      else ok (pos 0)

  -- The job identifier as number/user/name.
  unfoldable pub job_id_of : Bytes → Result SetupError Bytes
  job_id_of id =
      if length id == 26
      then (slice id 20 26 >>= λ number. slice id 10 20 >>= λ user. slice id 0 10 >>= λ name.
          ok (trim_space number ++ (b'/' ∷ (trim_space user ++ (b'/' ∷ trim_space name)))))
      else ok (trim_space id)

  -- The part that depends on the functional level.
  unfoldable pub read_job : Bytes → ℕ → ℤ → Result SetupError Bytes
  unfolding job_id_of
  read_job a ccsid level =
      if at_least_five level && leb 114 (length a)
      then (slice a 88 114 >>= λ b. job_id_of (decode_server_text registry ccsid b))
      else ok []

  -- parseServerAttributes, on a Conn whose fields are still zero.
  unfoldable pub parse_server_attributes : Bytes → Result SetupError ServerFacts
  unfolding level_of read_job
  parse_server_attributes a =
      if ltb (length a) 60 then err (attributes_too_short (length a)) else do
        ccsid ← uint16 a 19
        v ← byte_at a 51
        r ← byte_at a 53
        m ← byte_at a 55
        text ← slice a 50 60
        level ← level_of (decode_server_text registry ccsid text)
        job ← read_job a ccsid level
        ok (record {
          server_ccsid = ccsid;
          vrm = bit_or (bit_or (bit_and v 0x0F * 65536) (bit_and r 0x0F * 256)) (bit_and m 0x0F);
          functional_level = level;
          job_id = job;
        })

  -- setServerAttributes from its reply on
  unfoldable pub facts_of :
      Session × Result DbError DbReply → Session × Result SetupError ServerFacts
  unfolding parse_server_attributes
  facts_of (s, ok rep) = (
    s,
    if failed rep
        then err (set_attributes_failed (server_error op_set_attributes rep))
        else parse_server_attributes rep.server_attributes,
  )
  facts_of (s, err e) = (s, err (set_attributes_failed e))
  facts_of (s, panic) = (s, panic)
  facts_of (s, stuck) = (s, stuck)

  abbrev sent_request :
      Session → Result SetupError DbRequest → Session × Result SetupError ServerFacts
  sent_request s (ok req) = facts_of (db_call (decode_server_text registry) s req)
  sent_request s (err e) = (s, err e)
  sent_request s panic = (s, panic)
  sent_request s stuck = (s, stuck)

  -- setServerAttributes
  unfoldable pub set_server_attributes :
      Session → Bool → Bytes → Session × Result SetupError ServerFacts
  unfolding attributes_request facts_of db_call
  set_server_attributes s system_naming schema =
      sent_request s (attributes_request system_naming schema)
