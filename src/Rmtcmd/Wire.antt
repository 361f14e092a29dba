-- ===== src/Rmtcmd/Wire.antt =====
-- rmtcmd/wire.go: requests, parameters and the output of a program call.
-- A string is given as the list of its runes (a command) or of its bytes (a name). strings.ToUpper is
-- the parameter `to_upper`. The *Parameter pointers of a call are taken to be distinct objects, and
-- none is nil.
pub mod Output
pub mod Sent
use jt400_go.Prelude.{
  ℕ, ◌+◌, ◌^◌, Bool, true, false, not, ◌&&◌, ◌||◌, List, [], ◌∷◌, ◌++◌, ltb, leb, ◌==◌,
  if◌then◌else◌, length,
}
use jt400_go.Prelude.Int.{ℤ, pos, negsuc}
use jt400_go.Go.{
  Result, ok, err, panic, stuck, ◌>>=◌, wrap, Bytes, slice, uint16, uint32, be16, be32, unsigned,
}
use jt400_go.As400.Datastream.{Request, Reply, server_remote_command}
use jt400_go.Auth.Ebcdic.{EbcdicError, encode_ebcdic_padded}
use jt400_go.Auth.Text.{utf16be}
use jt400_go.Rmtcmd.Rle.{RleError, decompress_rle}

pub data RmtError : Type 0 where
  exchange_reply_too_short : RmtError
  exchange_failed : ℕ → RmtError
  exchange_missing_fields : RmtError
  datastream_too_old : ℕ → RmtError
  program_name : EbcdicError → RmtError
  library_name : EbcdicError → RmtError
  output_truncated : RmtError
  invalid_entry_length : RmtError
  bad_rle : RleError → RmtError
  reply_too_short : RmtError

pub data MessageOption : Type 0 where
  up_to_10 no_messages all_messages : MessageOption

abbrev pub option_byte : MessageOption → ℕ
option_byte up_to_10 = 0
option_byte no_messages = 1
option_byte all_messages = 2

-- remapMessageCount
unfoldable pub remap_message_count : ℕ → MessageOption → ℕ
remap_message_count ds_level opt =
    let opt_byte = option_byte opt in
    let count : ℕ = if ltb ds_level 7 && opt_byte == 2 then 0 else opt_byte in
    if leb 11 ds_level
    then (if count == 0 then 5 else if count == 2 then 6 else count)
    else if leb 10 ds_level
    then (if count == 0 then 3 else if count == 2 then 4 else count)
    else count

unfoldable pub build_exchange_attributes_request : Request
build_exchange_attributes_request = record {
  server_id = server_remote_command;
  header_id = 0;
  correlation = 0;
  template_len = 14;
  req_rep_id = 0x1001;
  body = be32 37 ++ (0xF2 ∷ 0xF9 ∷ 0xF2 ∷ 0xF4 ∷ (be32 1 ++ (0 ∷ 0 ∷ [])));
}

-- parseExchangeAttributesReply: the CCSID and the datastream level.
unfoldable pub parse_exchange_attributes_reply : Reply → Result RmtError (ℕ × ℕ)
parse_exchange_attributes_reply reply =
    if ltb (length reply.body) 2 then err exchange_reply_too_short else do
      rc ← uint16 reply.body 0
      let checked : Result RmtError (ℕ × ℕ) =
          if not (rc == 0)
          then err (exchange_failed rc)
          else if ltb (length reply.body) 16
          then err exchange_missing_fields
          else do ccsid ← uint32 reply.body 2; ds_level ← uint16 reply.body 14; ok (ccsid, ds_level)
      checked

-- buildRunCommandRequest
unfoldable pub build_run_command_request : List ℕ → ℕ → MessageOption → Result RmtError Request
unfolding remap_message_count
build_run_command_request command ds_level msg_opt =
    if ltb ds_level 10
    then err (datastream_too_old ds_level)
    else let cmd_bytes = utf16be command in
      ok (record {
        server_id = server_remote_command;
        header_id = 0;
        correlation = 0;
        template_len = 1;
        req_rep_id = 0x1002;
        body =
            remap_message_count ds_level msg_opt
            ∷ (be32 (10 + length cmd_bytes) ++ (be16 0x1104 ++ (be32 1200 ++ cmd_bytes)));
      })

pub data ParamUsage : Type 0 where
  input output in_out null : ParamUsage

pub record Parameter : Type 0 where
  pub usage : ParamUsage
  pub max_length : ℤ
  pub input_data : Bytes
  pub output_data : Bytes

-- trimTrailingZeros
unfoldable pub trim_trailing_zeros : Bytes → Bytes
trim_trailing_zeros [] = []
trim_trailing_zeros (x ∷ xs) = elim (trim_trailing_zeros xs) [
  | [] ↦ if x == 0 then [] else x ∷ []
  | y ∷ ys ↦ x ∷ y ∷ ys
]

-- resolvedParam; its length is that of `content` in every case.
pub record ResolvedParam : Type 0 where
  pub usage : ℕ
  pub content : Bytes

-- resolveParam
unfoldable pub resolve_param : Parameter → ℕ → ResolvedParam
unfolding trim_trailing_zeros
resolve_param p ds_level = elim p.usage [
  | output ↦ record { usage = 22; content = [] }
  | null ↦
      if ltb ds_level 6
      then record { usage = 1; content = [] }
      else record { usage = 0xFF; content = [] }
  | input ↦ record { usage = 11; content = trim_trailing_zeros p.input_data }
  | in_out ↦ record {
    usage = if leb 5 ds_level then 33 else 13;
    content = trim_trailing_zeros p.input_data;
  }
]

-- One entry of the request: length, code point, uint32(MaxLength), usage, data.
unfoldable pub encode_entry : Parameter → ℕ → Bytes
unfolding resolve_param
encode_entry p ds_level =
    let e = resolve_param p ds_level in
    be32 (length e.content + 12)
    ++ (be16 0x1103 ++ (be32 (unsigned (2 ^ 32) p.max_length) ++ (be16 e.usage ++ e.content)))

unfoldable pub encode_entries : List Parameter → ℕ → Bytes
unfolding encode_entry
encode_entries [] ds_level = []
encode_entries (p ∷ ps) ds_level = encode_entry p ds_level ++ encode_entries ps ds_level

-- buildCallProgramRequest
unfoldable pub build_call_program_request :
    (Bytes → Bytes) → Bytes → Bytes → List Parameter → ℕ → MessageOption → Result RmtError Request
unfolding remap_message_count encode_entries
build_call_program_request to_upper library program params ds_level msg_opt = do
  prog_bytes ← wrap program_name (encode_ebcdic_padded (to_upper program) 10)
  lib_bytes ← wrap library_name (encode_ebcdic_padded (to_upper library) 10)
  ok (record {
    server_id = server_remote_command;
    header_id = 0;
    correlation = 0;
    template_len = 23;
    req_rep_id = 0x1003;
    body =
        prog_bytes
        ++ (lib_bytes
            ++ (remap_message_count ds_level msg_opt
                ∷ (be16 (length params) ++ encode_entries params ds_level)));
  })

abbrev pub is_output : ParamUsage → Bool
is_output output = true
is_output in_out = true
is_output _ = false

abbrev pub is_positive : ℤ → Bool
is_positive (pos n) = ltb 0 n
is_positive (negsuc n) = false

-- The data of one entry of the reply, and where the next one begins.
unfoldable pub read_output : Bytes → ℕ → Result RmtError (Bytes × ℕ)
read_output body idx = if ltb (length body) (idx + 12) then err output_truncated else do
  byte_length ← uint32 body idx
  declared_length ← uint32 body (idx + 6)
  usage ← uint16 body (idx + 10)
  let entry : Result RmtError (Bytes × ℕ) =
      if ltb byte_length 12 || ltb (length body) (idx + byte_length)
      then err invalid_entry_length
      else do
        raw ← slice body (idx + 12) (idx + byte_length)
        let decoded : Result RmtError Bytes =
            if usage == 22 || usage == 23
            then wrap bad_rle (decompress_rle raw declared_length)
            else ok raw
        out ← decoded
        ok (out, idx + byte_length)
  entry

-- The loop of parseCallProgramOutput: the parameters as it leaves them, those before a failure
-- filled, and its error.
unfoldable pub fill_outputs :
    Bytes → ℕ → List Parameter → List Parameter × Result RmtError (Unit {0})
unfolding read_output
fill_outputs body idx [] = ([], ok tt)
fill_outputs body idx (p ∷ ps) =
    let skipped : List Parameter × Result RmtError (Unit {0}) =
      let rest = fill_outputs body idx ps in (p ∷ rest.0, rest.1) in
    let filled : List Parameter × Result RmtError (Unit {0}) = elim (read_output body idx) [
      | ok (out, next) ↦
          let rest = fill_outputs body next ps in (record p { output_data = out } ∷ rest.0, rest.1)
      | err e ↦ (p ∷ ps, err e)
      | panic ↦ (p ∷ ps, panic)
      | stuck ↦ (p ∷ ps, stuck)
    ] in
    if not (is_output p.usage) || not (is_positive p.max_length) then skipped else filled

-- parseCallProgramOutput
unfoldable pub parse_call_program_output :
    Bytes → List Parameter → List Parameter × Result RmtError (Unit {0})
unfolding fill_outputs
parse_call_program_output body params = fill_outputs body 4 params
