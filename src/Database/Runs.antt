-- ===== src/Database/Runs.antt =====
-- Concrete decimals, formats and blocks, and the theorems about them at concrete inputs.
use jt400_go.Prelude.{
  ℕ, ◌≡◌, refl, ◌↔◌, inr, true, false, not, ◌&&◌, Option, none, some, List, [], ◌∷◌, ◌++◌, map,
  arith, length, replicate,
}
use jt400_go.Prelude.Int.{pos}
use jt400_go.Go.{ok, panic, returns, Bytes, be16_at, be32_at, uint16, uint32}
use jt400_go.As400.Datastream.{Reply}
use jt400_go.Database.Decimal.{
  encode_packed, decode_packed, encode_zoned, decode_zoned, format_decimal, scale_to_digits,
  is_zero_digit,
}
use jt400_go.Go.Strings.{all_are}
use jt400_go.Database.Decimal.Digits.{AreDigits}
use jt400_go.Database.Decimal.Packed.{decode_packed-encode_packed}
use jt400_go.Database.Decimal.Zoned.{decode_zoned-encode_zoned, decode_zoned-returns}
use jt400_go.Database.Decimal.Text.{scale_to_digits-format_decimal}
use jt400_go.Database.Format.{Field, parse_data_format, encode_parameter_format, record_size}
use jt400_go.Database.Format.Fields.{as_parameter, parse_data_format-encode_parameter_format}
use jt400_go.Database.Data.{ResultData, parse_result_data, row, indicator, encode_parameter_data}
use jt400_go.Database.Data.Bounds.{bare_header, parse_result_data_bounds, parse_result_data_wraps}
use jt400_go.Database.Data.RoundTrip.{
  cells, null_indicator, parse_result_data-encode_parameter_data,
}
use jt400_go.Database.Wire.{DbRequest, DbReply}

abbrev digits : Bytes
digits = b'1' ∷ b'2' ∷ b'0' ∷ b'5' ∷ []

digits-AreDigits : AreDigits digits
unfolding all_are
digits-AreDigits = refl

decode_packed-encode_packed_example :
    (out : Bytes) × (encode_packed 3 digits true ≡ ok out)
    × (length out ≡ 3)
    × (decode_packed out 4 2 ≡ ok (format_decimal digits 2 true))
decode_packed-encode_packed_example = decode_packed-encode_packed digits true 2 digits-AreDigits

decode_zoned-encode_zoned_example :
    (out : Bytes) × (encode_zoned 4 digits true ≡ ok out)
    × (length out ≡ 4)
    × (decode_zoned out 4 2 ≡ ok (format_decimal digits 2 true))
decode_zoned-encode_zoned_example =
    decode_zoned-encode_zoned digits true 2 digits-AreDigits (λ e. cc)

abbrev no_precision : ℕ
no_precision = 0

abbrev no_bytes : Bytes
no_bytes = []

decode_zoned-returns_example :
    (returns (decode_zoned no_bytes no_precision 0) ≡ false)
    ↔ ((no_bytes ≡ []) × (no_precision ≡ 0))
decode_zoned-returns_example = decode_zoned-returns no_bytes no_precision 0

scale_to_digits-format_decimal_example :
    scale_to_digits (format_decimal digits 2 true) 4 2
    ≡ ok (digits, true && not (all_are is_zero_digit digits))
scale_to_digits-format_decimal_example =
    scale_to_digits-format_decimal digits 2 digits-AreDigits (omega arith) true

abbrev ascii : ℕ → Bytes → Bytes
ascii ccsid b = b

abbrev fields : List Field
fields =
    (record { sql_type = 496; size = 2; scale = 0; precision = 4; ccsid = 0; name = [] })
    ∷ (record { sql_type = 485; size = 3; scale = 2; precision = 5; ccsid = 37; name = b'A' ∷ [] })
    ∷ []

parse_data_format-encode_parameter_format_example :
    parse_data_format ascii (encode_parameter_format fields)
    ≡ ok (record { fields = map as_parameter fields; record_size = record_size fields })
parse_data_format-encode_parameter_format_example =
    parse_data_format-encode_parameter_format ascii fields
      (
        (omega arith, omega arith, omega arith, omega arith, omega arith),
        ((omega arith, omega arith, omega arith, omega arith, omega arith), tt),
      )
      (omega arith) (unfold record_size in omega arith)

abbrev values : List (Option Bytes)
values = none ∷ some (1 ∷ 2 ∷ 3 ∷ []) ∷ []

parse_result_data-encode_parameter_data_example :
    (bytes : Bytes) × (rd : ResultData) × (encode_parameter_data fields values ≡ ok bytes)
    × (parse_result_data bytes ≡ ok rd)
    × (rd.row_count ≡ 1)
    × (rd.column_count ≡ 2)
    × (row rd 0 ≡ ok (cells fields values))
    × (indicator rd 0 0 ≡ ok (null_indicator none))
parse_result_data-encode_parameter_data_example =
    parse_result_data-encode_parameter_data fields values 0 none (refl, tt) (omega arith)
      (unfold record_size in omega arith) refl

abbrev block : Bytes
block = bare_header 1 1 2 1 ++ (255 ∷ 255 ∷ 7 ∷ [])

abbrev block_data : ResultData
block_data = record {
  raw = block;
  row_count = 1;
  column_count = 1;
  indicator_size = 2;
  row_size = 1;
}

block_run : parse_result_data block ≡ ok block_data
unfolding parse_result_data uint32 uint16 be32_at be16_at
block_run = refl

parse_result_data_bounds_example :
    ((cell_bytes : Bytes) × (row block_data 0 ≡ ok cell_bytes) × (length cell_bytes ≡ 1))
    × (returns (indicator block_data 0 0) ≡ true)
parse_result_data_bounds_example =
    parse_result_data_bounds block block_data 0 0 block_run (omega arith) (omega arith)
      (omega arith) (inr (omega arith))

parse_result_data_wraps_example :
    (rd : ResultData) × (parse_result_data (bare_header 4294967295 0 0 4294967295) ≡ ok rd)
    × (rd.row_count ≡ 4294967295)
    × (row rd 0 ≡ panic)
parse_result_data_wraps_example =
    parse_result_data_wraps 4294967295 0 0 4294967295 (omega arith) (omega arith) (omega arith)
      (omega arith) (omega arith) (omega arith)

abbrev db_reply : Reply
db_reply = record {
  header_id = 0;
  server_id = 0xE004;
  correlation = 1;
  template_len = 20;
  req_rep_id = 0x2800;
  body = replicate 20 0 ++ (0 ∷ 0 ∷ 0 ∷ 7 ∷ 0x38 ∷ 0x0C ∷ 1 ∷ []);
}

abbrev end_reply : DbReply
end_reply = record {
  error_class = 2;
  return_code = pos 700;
  message_id = [];
  message = [];
  server_attributes = [];
  sqlca = [];
  data_format = none;
  param_format = none;
  result_data = none;
}

abbrev db_request : DbRequest
db_request = record {
  function_id = 0x180B;
  rpb_id = 1;
  ors = 0xE4000000;
  pm_handle = 0;
  params = (record { code_point = 0x380E; content = 0 ∷ 100 ∷ [] }) ∷ [];
}
