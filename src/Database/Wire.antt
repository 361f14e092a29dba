-- ===== src/Database/Wire.antt =====
-- database/wire.go: the requests of the as-database protocol and the replies to them.
-- decodeServerText is the parameter `decode_text`. A nil slice and an empty one are both the empty
-- list: no reader of a reply tells them apart.
pub mod Replies
pub mod Requests
use jt400_go.Prelude.{
  ℕ, ◌+◌, ◌/◌, ◌%◌, Bool, true, false, not, ◌&&◌, ◌||◌, Option, none, some, List, [], ◌∷◌, ◌++◌,
  ltb, ◌==◌, if◌then◌else◌, length,
}
use jt400_go.Prelude.Int.{ℤ, pos, negsuc}
use jt400_go.Go.{
  Result, ok, err, ◌>>=◌, wrap, Bytes, slice, byte_at, uint16, uint32, be16, be32, signed32,
}
use jt400_go.As400.Error.{WireError}
use jt400_go.As400.Params.{Param, encode_params, decode_params}
use jt400_go.As400.Datastream.{Request, Reply, server_database}
use jt400_go.Database.Format.{
  FormatError, DataFormat, parse_data_format, parse_super_extended_format,
}
use jt400_go.Database.Data.{ResultData, parse_result_data}

abbrev pub ors_reply : ℕ
ors_reply = 0xE0000000

abbrev pub ors_sqlca : ℕ
ors_sqlca = 0x02000000

abbrev pub ors_server_attributes : ℕ
ors_server_attributes = 0x01000000

-- request
pub record DbRequest : Type 0 where
  pub function_id : ℕ
  pub rpb_id : ℕ
  pub ors : ℕ
  pub pm_handle : ℕ
  pub params : List Param

-- request.add, addByte, addShort, addInt, addText and addLongText
unfoldable pub add : DbRequest → ℕ → Bytes → DbRequest
add r cp content = record r {
  params = r.params ++ (record { code_point = cp; content = content } ∷ []);
}

unfoldable pub add_byte : DbRequest → ℕ → ℕ → DbRequest
unfolding add
add_byte r cp v = add r cp (v ∷ [])

unfoldable pub add_short : DbRequest → ℕ → ℕ → DbRequest
unfolding add
add_short r cp v = add r cp (be16 v)

unfoldable pub add_int : DbRequest → ℕ → ℕ → DbRequest
unfolding add
add_int r cp v = add r cp (be32 v)

unfoldable pub add_text : DbRequest → ℕ → ℕ → Bytes → DbRequest
unfolding add
add_text r cp ccsid text = add r cp (be16 ccsid ++ (be16 (length text) ++ text))

unfoldable pub add_long_text : DbRequest → ℕ → ℕ → Bytes → DbRequest
unfolding add
add_long_text r cp ccsid text = add r cp (be16 ccsid ++ (be32 (length text) ++ text))

-- The 20-byte template of request.encode.
unfoldable pub encode_template : DbRequest → Bytes
encode_template r =
    be32 r.ors
    ++ (be32 0
        ++ (be16 r.rpb_id
            ++ (be16 r.rpb_id
                ++ (be16 0 ++ (be16 r.rpb_id ++ (be16 r.pm_handle ++ be16 (length r.params)))))))

-- request.encode
unfoldable pub encode_request : DbRequest → Request
unfolding encode_template
encode_request r = record {
  server_id = server_database;
  header_id = 0;
  correlation = 0;
  template_len = 20;
  req_rep_id = r.function_id;
  body = encode_template r ++ encode_params r.params;
}

-- reply
pub record DbReply : Type 0 where
  pub error_class : ℕ
  pub return_code : ℤ
  pub message_id : Bytes
  pub message : Bytes
  pub server_attributes : Bytes
  pub sqlca : Bytes
  pub data_format : Option DataFormat
  pub param_format : Option DataFormat
  pub result_data : Option ResultData

pub data ReplyError : Type 0 where
  too_short : ℕ → ReplyError
  compressed : ReplyError
  decode_reply : WireError → ReplyError
  bad_format : FormatError → ReplyError
  compressed_data : ReplyError
  original_format : ℕ → ReplyError

module _ (decode_text : ℕ → Bytes → Bytes) where
  -- `int(binary.BigEndian.Uint16(d[0:2]))` and the text behind `skip` bytes, for a longer entry.
  unfoldable pub read_text : ℕ → Bytes → Result ReplyError Bytes
  read_text skip d = do
    ccsid ← uint16 d 0
    text ← slice d skip (length d)
    ok (decode_text ccsid text)

  -- The switch of parseReply on one entry.
  unfoldable pub apply_param : Bool → DbReply → Param → Result ReplyError DbReply
  apply_param vlf_compressed rep p =
      let d = p.content in
      let cp = p.code_point in
      if cp == 0x3801
      then (if ltb 2 (length d)
          then (read_text 2 d >>= λ t. ok (record rep { message_id = t }))
          else ok rep)
      else if cp == 0x3802
      then (if ltb 4 (length d)
          then (read_text 4 d >>= λ t. ok (record rep { message = t }))
          else ok rep)
      else if cp == 0x3804
      then (if ltb 2 (length d)
          then (slice d 2 (length d) >>= λ a. ok (record rep { server_attributes = a }))
          else ok rep)
      else if cp == 0x3807
      then ok (record rep { sqlca = d })
      else if cp == 0x380C
      then (if ltb 0 (length d)
          then (wrap bad_format (parse_data_format decode_text d) >>= λ df.
              ok (record rep { data_format = some df }))
          else ok rep)
      else if cp == 0x380D
      then (if ltb 0 (length d)
          then (wrap bad_format (parse_data_format decode_text d) >>= λ df.
              ok (record rep { param_format = some df }))
          else ok rep)
      else if cp == 0x3812
      then (if ltb 0 (length d)
          then (wrap bad_format (parse_super_extended_format decode_text d) >>= λ df.
              ok (record rep { data_format = some df }))
          else ok rep)
      else if cp == 0x3813
      then (if ltb 0 (length d)
          then (wrap bad_format (parse_super_extended_format decode_text d) >>= λ df.
              ok (record rep { param_format = some df }))
          else ok rep)
      else if cp == 0x380E
      then (if ltb 0 (length d)
          then (if vlf_compressed
              then err compressed_data
              else (wrap bad_format (parse_result_data d) >>= λ rd.
                  ok (record rep { result_data = some rd })))
          else ok rep)
      else if cp == 0x3805 || (cp == 0x3808 || (cp == 0x3806 || cp == 0x3901))
      then (if ltb 0 (length d) then err (original_format cp) else ok rep)
      else ok rep

  unfoldable pub apply_params : Bool → DbReply → List Param → Result ReplyError DbReply
  apply_params vlf_compressed rep [] = ok rep
  apply_params vlf_compressed rep (p ∷ ps) =
      apply_param vlf_compressed rep p >>= λ rep'. apply_params vlf_compressed rep' ps

  -- parseReply
  unfoldable pub parse_reply : Reply → Result ReplyError DbReply
  parse_reply r =
      let body = r.body in
      if ltb (length body) 20 then err (too_short (length body)) else do
        flags ← byte_at body 4
        let open_reply : Result ReplyError DbReply =
            if not (flags / 128 % 2 == 0) then err compressed else do
              vlf ← uint16 body 0
              error_class ← uint16 body 14
              return_code ← uint32 body 16
              rest ← slice body 20 (length body)
              params ← wrap decode_reply (decode_params rest)
              apply_params (not (vlf % 2 == 0))
                  (record {
                    error_class = error_class;
                    return_code = signed32 return_code;
                    message_id = [];
                    message = [];
                    server_attributes = [];
                    sqlca = [];
                    data_format = none;
                    param_format = none;
                    result_data = none;
                  })
                  params
        open_reply

  -- sqlState
  unfoldable pub sql_state : DbReply → Result ReplyError Bytes
  sql_state r =
      if ltb (length r.sqlca) 136
      then ok []
      else (slice r.sqlca 131 136 >>= λ s. ok (decode_text 37 s))

abbrev pub is_negative : ℤ → Bool
is_negative (pos n) = false
is_negative (negsuc n) = true

abbrev pub code_is : ℤ → ℕ → Bool
code_is (pos n) k = n == k
code_is (negsuc n) k = false

-- failed, endOfData and cursorClosedByServer
unfoldable pub failed : DbReply → Bool
failed r = not (r.error_class == 0) && is_negative r.return_code

unfoldable pub end_of_data : DbReply → Bool
end_of_data r =
    (r.error_class == 1 && code_is r.return_code 100)
    || (r.error_class == 2 && (code_is r.return_code 700 || code_is r.return_code 701))

unfoldable pub cursor_closed_by_server : DbReply → Bool
cursor_closed_by_server r = r.error_class == 2 && code_is r.return_code 700

-- rowCount: SQLERRD(3) of the SQLCA
unfoldable pub affected_rows : DbReply → Result ReplyError ℤ
affected_rows r =
    if ltb (length r.sqlca) 108 then ok (pos 0) else (uint32 r.sqlca 104 >>= λ n. ok (signed32 n))
