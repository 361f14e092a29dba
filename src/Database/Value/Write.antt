-- ===== src/Database/Value/Write.antt =====
-- database/value.go: encodeValue, the bytes of one parameter.
-- copy(out, data) on the zeroed field is the data and the zeros that are left.
use jt400_go.Prelude.{
  ℕ, zero, suc, ◌+◌, ◌-◌, ◌/◌, ◌^◌, Bool, true, false, not, ◌&&◌, ◌||◌, Option, none, some, [], ◌∷◌,
  ◌++◌, ltb, leb, ◌==◌, if◌then◌else◌, length, replicate,
}
use jt400_go.Prelude.Int.{ℤ, pos, negsuc}
use jt400_go.Go.{Result, ok, err, stuck, ◌>>=◌, wrap, Bytes, be16, be32, unsigned, be64}
use jt400_go.Go.Strings.{codes}
use jt400_go.Go.Numbers.{format_int, parse_int}
use jt400_go.Database.Format.{Field, base_type}
use jt400_go.Database.Ccsid.{Registry, ccsid_binary, encode_string, blank}
use jt400_go.Database.Decimal.{scale_to_digits, encode_packed, encode_zoned}
use jt400_go.Database.Value.{
  Platform, Value, text, binary, int, float, bool, time, ValueError, unsupported_type,
  unexpected_length, does_not_fit, scaled_integer, out_of_range, not_binary, not_integer, not_float,
  not_decimal, bad_text, bad_decimal, char_ccsid, layout_date, layout_time, layout_timestamp,
  type_date, type_time, type_timestamp, type_blob, type_clob, type_dbclob, type_varchar, type_char,
  type_long_varchar, type_vargraphic, type_graphic, type_long_vargraph, type_float, type_packed,
  type_zoned, type_bigint, type_integer, type_smallint, type_varbinary, type_binary,
}
use jt400_go.Database.Value.Read.{one_of, replace_byte}

-- copy(out, data) for data that fits.
abbrev pub zero_filled : Bytes → ℕ → Bytes
zero_filled content size = content ++ replicate (size - length content) 0

-- The padding loop of padText, in the bytes that are left; those that no further blank fits into stay
-- zero. A blank that is coded in no byte would never fill them: each round takes a byte at least, or
-- the fuel runs out.
unfoldable pub pad_loop : ℕ → Bytes → ℕ → Result ValueError Bytes
pad_loop zero pad room = if leb (length pad) room then stuck else ok (replicate room 0)
pad_loop (suc fuel) pad room =
    let more = pad_loop fuel pad (room - length pad) in
    if leb (length pad) room then (more >>= λ rest. ok (pad ++ rest)) else ok (replicate room 0)

-- padText
unfoldable pub pad_text : Registry → ℕ → ℕ → Bytes → Result ValueError Bytes
unfolding pad_loop
pad_text registry ccsid size s = wrap bad_text (encode_string registry ccsid s) >>= λ content.
    if ltb size (length content)
    then err (does_not_fit (length content))
    else (wrap bad_text (blank registry ccsid) >>= λ pad.
        pad_loop size pad (size - length content) >>= λ rest. ok (content ++ rest))

abbrev pub or_error : {A : Type 0} → ValueError → Option A → Result ValueError A
or_error e none = err e
or_error e (some a) = ok a

-- The range checks of encodeValue: n < -limit || n > limit - 1.
unfoldable pub fits_signed : ℕ → ℤ → Bool
fits_signed limit (pos n) = ltb n limit
fits_signed limit (negsuc n) = ltb n limit

-- The bytes of an integer in a field of 2, 4 or 8 bytes.
unfoldable pub write_int : ℕ → ℤ → Result ValueError Bytes
unfolding fits_signed
write_int size n =
    if size == 2
    then (if not (fits_signed (2 ^ 15) n)
        then err (out_of_range 2)
        else ok (be16 (unsigned (2 ^ 16) n)))
    else if size == 4
    then (if not (fits_signed (2 ^ 31) n)
        then err (out_of_range 4)
        else ok (be32 (unsigned (2 ^ 32) n)))
    else if size == 8
    then ok (be64 (unsigned (2 ^ 64) n))
    else err (unexpected_length size)

-- The field of a length prefix and data behind it: binary.BigEndian.PutUint16 or PutUint32, and copy.
unfoldable pub write_prefixed : Bytes → Bytes → ℕ → Result ValueError Bytes
write_prefixed prefix content size =
    if ltb size (length prefix + length content)
    then err (does_not_fit (length content))
    else ok (prefix ++ zero_filled content (size - length prefix))

-- What the length prefixes count: bytes, or characters of two bytes.
abbrev pub varying_units : Field → Bytes → ℕ
varying_units f content =
    if base_type f == type_vargraphic || base_type f == type_long_vargraph
    then length content / 2
    else length content

abbrev pub lob_units : Field → Bytes → ℕ
lob_units f content = if base_type f == type_dbclob then length content / 2 else length content

module _ (p : Platform) (registry : Registry) where
  open p use {
    Float, Zone, format_float, parse_float, float_of_int, int_of_float, is_whole, below_min_int64,
    reaches_max_int64, is_special, float32_bits, float64_bits, format_time, trim_space,
  }

  -- bytesValue
  unfoldable pub bytes_value : Value p → Result ValueError Bytes
  bytes_value (binary b) = ok b
  bytes_value (text s) = ok s
  bytes_value _ = err not_binary

  abbrev bool_text : Bool → Bytes
  bool_text true = codes "1"
  bool_text false = codes "0"

  -- A time as text, for the field's type; the fraction of a TIMESTAMP follows the field's length.
  unfoldable pub time_text : p.Time → Zone → Field → Bytes
  time_text x zone f =
      let s = format_time layout_timestamp x zone in
      if base_type f == type_date
      then format_time layout_date x zone
      else if base_type f == type_time
      then format_time layout_time x zone
      else if base_type f == type_timestamp && ltb (length s + 1) f.size
      then s ++ format_time (b'.' ∷ replicate (f.size - length s - 1) b'0') x zone
      else if not (base_type f == type_timestamp)
      then s ++ format_time (codes ".000000") x zone
      else s

  -- stringValue
  unfoldable pub string_value : Value p → Zone → Field → Result ValueError Bytes
  unfolding time_text
  string_value (text s) zone f = ok s
  string_value (binary b) zone f = ok b
  string_value (int n) zone f = ok (format_int n)
  string_value (float x) zone f = ok (format_float x)
  string_value (bool b) zone f = ok (bool_text b)
  string_value (time x) zone f = ok (time_text x zone f)

  -- intValue
  unfoldable pub int_value : Value p → Result ValueError ℤ
  int_value (int n) = ok n
  int_value (bool b) = ok (pos (if b then 1 else 0))
  int_value (float x) =
      if not (is_whole x) || (below_min_int64 x || reaches_max_int64 x)
      then err not_integer
      else ok (int_of_float x)
  int_value (text s) = or_error not_integer (parse_int (trim_space s))
  int_value (binary s) = or_error not_integer (parse_int (trim_space s))
  int_value (time x) = err not_integer

  -- floatValue
  unfoldable pub float_value : Value p → Result ValueError Float
  float_value (float x) = ok x
  float_value (int n) = ok (float_of_int n)
  float_value (text s) = or_error not_float (parse_float (trim_space s))
  float_value (binary s) = or_error not_float (parse_float (trim_space s))
  float_value (bool b) = err not_float
  float_value (time x) = err not_float

  -- decimalValue
  unfoldable pub decimal_value : Value p → Result ValueError Bytes
  decimal_value (text s) = ok (trim_space s)
  decimal_value (binary s) = ok (trim_space s)
  decimal_value (int n) = ok (format_int n)
  decimal_value (float x) = if is_special x then err not_decimal else ok (format_float x)
  decimal_value (bool b) = ok (bool_text b)
  decimal_value (time x) = err not_decimal

  -- The data of a varying field or a LOB: bytes, or a text in the field's code page.
  unfoldable pub data_value : Bool → Field → Value p → Zone → Result ValueError Bytes
  unfolding bytes_value string_value
  data_value true f v zone = bytes_value v
  data_value false f v zone =
      string_value v zone f >>= λ s. wrap bad_text (encode_string registry f.ccsid s)

  -- Bytes in a field of fixed length.
  unfoldable pub write_binary : Field → Value p → Result ValueError Bytes
  unfolding bytes_value
  write_binary f v = bytes_value v >>= λ b.
      if ltb f.size (length b) then err (does_not_fit (length b)) else ok (zero_filled b f.size)

  unfoldable pub write_char : Field → Value p → Zone → Result ValueError Bytes
  unfolding write_binary string_value
  write_char f v zone =
      if f.ccsid == ccsid_binary
      then write_binary f v
      else (string_value v zone f >>= pad_text registry f.ccsid f.size)

  unfoldable pub write_varying : Field → Value p → Zone → Result ValueError Bytes
  unfolding data_value write_prefixed
  write_varying f v zone =
      data_value (f.ccsid == ccsid_binary || base_type f == type_varbinary) f v zone >>= λ content.
      write_prefixed (be16 (varying_units f content)) content f.size

  unfoldable pub write_lob : Field → Value p → Zone → Result ValueError Bytes
  unfolding data_value write_prefixed
  write_lob f v zone =
      data_value (base_type f == type_blob || f.ccsid == ccsid_binary) f v zone >>= λ content.
      write_prefixed (be32 (lob_units f content)) content f.size

  unfoldable pub write_integer : Field → Value p → Result ValueError Bytes
  unfolding int_value write_int
  write_integer f v =
      if ltb 0 f.scale then err (scaled_integer f.scale) else (int_value v >>= write_int f.size)

  unfoldable pub write_float : Field → Value p → Result ValueError Bytes
  unfolding float_value
  write_float f v = float_value v >>= λ x.
      if f.size == 4
      then ok (be32 (float32_bits x))
      else if f.size == 8
      then ok (be64 (float64_bits x))
      else err (unexpected_length f.size)

  unfoldable pub write_decimal : Field → Value p → Result ValueError Bytes
  unfolding decimal_value
  write_decimal f v = decimal_value v >>= λ s.
      wrap bad_decimal (scale_to_digits s f.precision f.scale) >>= λ d.
      if base_type f == type_packed
      then wrap bad_decimal (encode_packed f.size d.0 d.1)
      else wrap bad_decimal (encode_zoned f.size d.0 d.1)

  unfoldable pub write_date : Field → Value p → Zone → Result ValueError Bytes
  unfolding string_value
  write_date f v zone = string_value v zone f >>= λ s.
      pad_text registry (char_ccsid f) f.size
        (if base_type f == type_time then replace_byte b':' b'.' s else s)

  -- encodeValue
  unfoldable pub encode_value : Field → Value p → Zone → Result ValueError Bytes
  unfolding write_char write_varying write_binary write_lob write_integer write_float write_decimal
      write_date
  encode_value f v zone =
      let t = base_type f in
      if t == type_char || t == type_graphic
      then write_char f v zone
      else if one_of t (
          type_varchar ∷ type_long_varchar ∷ type_varbinary ∷ type_vargraphic ∷ type_long_vargraph
          ∷ [])
      then write_varying f v zone
      else if t == type_binary
      then write_binary f v
      else if one_of t (type_blob ∷ type_clob ∷ type_dbclob ∷ [])
      then write_lob f v zone
      else if one_of t (type_smallint ∷ type_integer ∷ type_bigint ∷ [])
      then write_integer f v
      else if t == type_float
      then write_float f v
      else if t == type_packed || t == type_zoned
      then write_decimal f v
      else if one_of t (type_date ∷ type_time ∷ type_timestamp ∷ [])
      then write_date f v zone
      else err (unsupported_type t)
