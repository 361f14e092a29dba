-- ===== src/Dtaq/Wire.antt =====
-- dtaq/wire.go: the data queue requests and the replies to them.
-- strings.ToUpper is the parameter `to_upper`. A nil key is `none`.
pub mod Replies
use jt400_go.Prelude.{
  ℕ, ◌+◌, ◌-◌, ◌%◌, ◌^◌, Bool, true, false, not, ◌&&◌, Option, none, some, [], ◌∷◌, ◌++◌, ltb, leb,
  ◌==◌, if◌then◌else◌, length,
}
use jt400_go.Prelude.Int.{ℤ}
use jt400_go.Go.{
  Result, ok, err, ◌>>=◌, wrap, Bytes, slice, byte_at, uint16, uint32, be16, be32, signed16,
  signed32, unsigned,
}
use jt400_go.As400.Error.{WireError}
use jt400_go.As400.Params.{Param, encode_params, decode_params, find}
use jt400_go.As400.Datastream.{Request, Reply, server_data_queue}
use jt400_go.Auth.Ebcdic.{
  EbcdicError, encode_ebcdic, encode_ebcdic_padded, decode_ebcdic_lossy, decode_trimmed,
}

-- Error: a return code and the CPF message, and the other errors of the file.
pub record ServerError : Type 0 where
  pub rc : ℕ
  pub message_id : Bytes
  pub message : Bytes

pub data QueueError : Type 0 where
  queue_name library_name text_description search_type : EbcdicError → QueueError
  search_type_length : Bytes → QueueError
  no_return_code : QueueError
  server : ServerError → QueueError
  missing_fields : QueueError
  decode_read_reply : WireError → QueueError
  unexpected_opcode : ℕ → QueueError

-- flagByte
unfoldable pub flag_byte : Bool → ℕ
flag_byte b = if b then 0xF1 else 0xF0

-- `append(append([]byte{}, ql...), ...)` and the like: a request to the data queue server.
abbrev queue_request : ℕ → ℕ → Bytes → Request
queue_request req_rep_id template_len body = record {
  server_id = server_data_queue;
  header_id = 0;
  correlation = 0;
  template_len = template_len;
  req_rep_id = req_rep_id;
  body = body;
}

abbrev pub wire_param : ℕ → Bytes → Bytes
wire_param cp d = encode_params (record { code_point = cp; content = d } ∷ [])

-- buildExchangeAttributesRequest
unfoldable pub build_exchange_attributes_request : Request
build_exchange_attributes_request = queue_request 0x0000 6 (be32 1 ++ (0 ∷ 0 ∷ []))

-- CreateOptions; `key_length` and `max_entry_length` as the unsigned words that are sent.
pub record CreateOptions : Type 0 where
  pub max_entry_length : ℕ
  pub public_authority : ℕ
  pub save_sender_information : Bool
  pub keyed : Bool
  pub key_length : ℕ
  pub fifo : Bool
  pub force_to_auxiliary_storage : Bool
  pub text_description : Bytes

module _ (to_upper : Bytes → Bytes) where
  -- queueLibraryBytes
  unfoldable pub queue_library_bytes : Bytes → Bytes → Result QueueError Bytes
  queue_library_bytes library name = do
    q ← wrap queue_name (encode_ebcdic_padded (to_upper name) 10)
    lib ← wrap library_name (encode_ebcdic_padded (to_upper library) 10)
    ok (q ++ lib)

  -- buildQueueOnlyRequest
  unfoldable pub build_queue_only_request : ℕ → Bytes → Bytes → Result QueueError Request
  unfolding queue_library_bytes
  build_queue_only_request req_rep_id library name = do
    ql ← queue_library_bytes library name
    ok (queue_request req_rep_id 20 ql)

  -- buildCreateRequest
  unfoldable pub build_create_request : Bytes → Bytes → CreateOptions → Result QueueError Request
  unfolding queue_library_bytes flag_byte
  build_create_request library name opts = do
    ql ← queue_library_bytes library name
    text ← wrap text_description (encode_ebcdic_padded opts.text_description 50)
    let pub_auth = if opts.public_authority == 0 then 0xF3 else opts.public_authority
    let kind = if opts.keyed then 0xF2 else if opts.fifo then 0xF0 else 0xF1
    let key_length = if not opts.keyed then 0 else opts.key_length
    ok (
        queue_request 0x0003 80 (
          ql
          ++ (be32 opts.max_entry_length
              ++ (pub_auth
                  ∷ flag_byte opts.save_sender_information
                  ∷ kind
                  ∷ (be16 key_length ++ (flag_byte opts.force_to_auxiliary_storage ∷ text))))))

  -- buildClearRequest
  unfoldable pub build_clear_request : Bytes → Bytes → Bytes → Bool → Result QueueError Request
  unfolding queue_library_bytes flag_byte
  build_clear_request library name key has_key = do
    ql ← queue_library_bytes library name
    ok (
        queue_request 0x0006 21
          (ql ++ (flag_byte has_key ∷ (if has_key then wire_param 0x5002 key else []))))

  -- buildWriteRequest
  unfoldable pub build_write_request :
      Bytes → Bytes → Option Bytes → Bytes → Result QueueError Request
  unfolding queue_library_bytes flag_byte
  build_write_request library name key entry = do
    ql ← queue_library_bytes library name
    let flag : Bool = elim key [ none ↦ false | some k ↦ true ]
    let tail : Bytes = elim key [ none ↦ [] | some k ↦ wire_param 0x5002 k ]
    ok (queue_request 0x0005 22 (ql ++ (flag_byte flag ∷ 0x01 ∷ (wire_param 0x5001 entry ++ tail))))

  -- The two bytes of the search type in a read request; zeros for a plain queue.
  unfoldable pub search_bytes : Bool → Bytes → Result QueueError Bytes
  search_bytes false st = ok (0 ∷ 0 ∷ [])
  search_bytes true st = wrap search_type (encode_ebcdic st) >>= λ code.
      if not (length code == 2) then err (search_type_length st) else ok code

  -- buildReadRequest
  unfoldable pub build_read_request :
      Bytes → Bytes → Bool → Bytes → Bytes → ℤ → Bool → Result QueueError Request
  unfolding queue_library_bytes flag_byte search_bytes
  build_read_request library name keyed st key wait_seconds peek = do
    ql ← queue_library_bytes library name
    code ← search_bytes keyed st
    ok (
        queue_request 0x0002 28 (
          ql
          ++ (flag_byte keyed
              ∷ (code
                  ++ (be32 (unsigned (2 ^ 32) wait_seconds)
                      ++ (flag_byte peek ∷ (if keyed then wire_param 0x5002 key else [])))))))

-- The message of checkCommonReply: at 8, with its length at 2.
unfoldable pub message_error : ℕ → Bytes → Result QueueError ServerError
message_error rc msg =
    if leb 9 (length msg)
    then (slice msg 0 7 >>= λ id. slice msg 9 (length msg) >>= λ text.
        ok (record { rc = rc; message_id = decode_trimmed id; message = decode_ebcdic_lossy text }))
    else ok (record { rc = rc; message_id = []; message = [] })

unfoldable pub reply_message : ℕ → Bytes → Result QueueError ServerError
unfolding message_error
reply_message rc body =
    if leb 8 (length body)
    then (uint32 body 2 >>= λ ll.
        if ltb 6 ll && leb (8 + (ll - 6)) (length body)
        then (slice body 8 (8 + (ll - 6)) >>= message_error rc)
        else ok (record { rc = rc; message_id = []; message = [] }))
    else ok (record { rc = rc; message_id = []; message = [] })

-- checkCommonReply: `none` for a nil error.
unfoldable pub check_common_reply : Reply → Result QueueError (Option QueueError)
unfolding reply_message
check_common_reply reply =
    if ltb (length reply.body) 2
    then ok (some no_return_code)
    else (uint16 reply.body 0 >>= λ rc.
        if rc == 0xF000
        then ok none
        else (reply_message rc reply.body >>= λ e. ok (some (server e))))

pub record Entry : Type 0 where
  pub content : Bytes
  pub key : Bytes
  pub sender_information : Bytes

abbrev pub or_nil : Option Bytes → Bytes
or_nil none = []
or_nil (some d) = d

abbrev is_no_data : QueueError → Bool
is_no_data (server e) = e.rc == 0xF006
is_no_data _ = false

-- parseReadReply: `none` for a nil entry.
unfoldable pub parse_read_reply : Reply → Result QueueError (Option Entry)
unfolding check_common_reply
parse_read_reply reply =
    if reply.req_rep_id == 0x8002
    then (check_common_reply reply >>= λ o. elim o [
      | none ↦ ok none
      | some e ↦ if is_no_data e then ok none else err e
    ])
    else if reply.req_rep_id == 0x8003
    then (if ltb (length reply.body) 38 then err missing_fields else do
      sender ← slice reply.body 2 38
      s0 ← byte_at sender 0
      rest ← slice reply.body 38 (length reply.body)
      params ← wrap decode_read_reply (decode_params rest)
      ok (
          some (record {
            content = or_nil (find params 0x5001);
            key = or_nil (find params 0x5002);
            sender_information = if not (s0 == 0x40) then sender else [];
          })))
    else err (unexpected_opcode reply.req_rep_id)

pub record Attributes : Type 0 where
  pub max_entry_length : ℤ
  pub save_sender_information : Bool
  pub keyed : Bool
  pub fifo : Bool
  pub key_length : ℤ
  pub force_to_auxiliary_storage : Bool
  pub text_description : Bytes

-- parseAttributesReply. `ok none` is the nil pointer with a nil error.
unfoldable pub parse_attributes_reply : Reply → Result QueueError (Option Attributes)
unfolding check_common_reply
parse_attributes_reply reply =
    if reply.req_rep_id == 0x8002
    then (check_common_reply reply >>= λ o. elim o [ none ↦ ok none | some e ↦ err e ])
    else if reply.req_rep_id == 0x8001
    then (if ltb (length reply.body) 61 then err missing_fields else do
      b7 ← byte_at reply.body 7
      max ← uint32 reply.body 2
      b6 ← byte_at reply.body 6
      kl ← uint16 reply.body 8
      b10 ← byte_at reply.body 10
      text ← slice reply.body 11 61
      ok (
          some (record {
            max_entry_length = signed32 max;
            save_sender_information = b6 == 0xF1;
            keyed = b7 % 16 == 2;
            fifo = b7 % 16 == 0;
            key_length = signed16 kl;
            force_to_auxiliary_storage = b10 == 0xF1;
            text_description = decode_trimmed text;
          })))
    else err (unexpected_opcode reply.req_rep_id)
