-- ===== src/Database/Value/Read.antt =====
-- database/value.go: decodeValue, on the bytes of one field.
use jt400_go.Prelude.{
  ℕ, ◌+◌, ◌*◌, Bool, false, not, ◌||◌, Option, none, some, List, [], ◌∷◌, map, ltb, ◌==◌,
  if◌then◌else◌, length,
}
use jt400_go.Prelude.Int.{ℤ}
use jt400_go.Go.{
  Result, ok, err, ◌>>=◌, wrap, Bytes, slice, be16_at, be32_at, uint16, uint32, signed16, signed32,
  signed64, be64_at,
}
use jt400_go.Go.Strings.{trim_right}
use jt400_go.Go.Numbers.{format_int}
use jt400_go.Database.Format.{Field, base_type}
use jt400_go.Database.Ccsid.{Registry, ccsid_binary, decode_string}
use jt400_go.Database.Decimal.{scale_digits, decode_packed, decode_zoned}
use jt400_go.Database.Value.{
  Platform, Value, text, binary, int, float, time, ValueError, unsupported_type, unexpected_length,
  bad_time, no_length_prefix, declares_too_much, bad_text, bad_decimal, char_ccsid, layout_date,
  layout_timestamp, type_date, type_time, type_timestamp, type_datalink, type_blob, type_clob,
  type_dbclob, type_varchar, type_char, type_long_varchar, type_vargraphic, type_graphic,
  type_long_vargraph, type_float, type_packed, type_zoned, type_bigint, type_integer, type_smallint,
  type_row_id, type_varbinary, type_binary,
}

-- varData
unfoldable pub var_data : Bytes → ℕ → Result ValueError Bytes
var_data b unit_size =
    if ltb (length b) 2
    then err (no_length_prefix (length b))
    else (uint16 b 0 >>= λ units.
        if ltb (length b) (2 + units * unit_size)
        then err (declares_too_much (units * unit_size))
        else slice b 2 (2 + units * unit_size))

-- lobData. An int of 64 bits holds twice a 32-bit length.
unfoldable pub lob_data : Bytes → Bool → Result ValueError Bytes
lob_data b double_byte =
    if ltb (length b) 4
    then err (no_length_prefix (length b))
    else (uint32 b 0 >>= λ units.
        let n = if double_byte then units * 2 else units in
        if ltb (length b) (4 + n) then err (declares_too_much n) else slice b 4 (4 + n))

-- `case a, b, c:`
abbrev pub one_of : ℕ → List ℕ → Bool
one_of t [] = false
one_of t (k ∷ ks) = t == k || one_of t ks

-- strings.ReplaceAll(s, a, b) for texts of one byte
abbrev pub replace_byte : ℕ → ℕ → Bytes → Bytes
replace_byte a b = map (λ c. if c == a then b else c)

-- The integer that a field of 2, 4 or 8 bytes holds.
unfoldable pub read_int : Bytes → Result ValueError ℤ
read_int b =
    if length b == 2
    then ok (signed16 (be16_at b 0))
    else if length b == 4
    then ok (signed32 (be32_at b 0))
    else if length b == 8
    then ok (signed64 (be64_at b 0))
    else err (unexpected_length (length b))

module _ (p : Platform) (registry : Registry) where
  open p use {Zone, float32_from_bits, float64_from_bits, parse_time}

  -- decodeString as a value
  unfoldable pub decoded_text : ℕ → Bytes → Result ValueError (Value p)
  decoded_text ccsid b = wrap bad_text (decode_string registry ccsid b) >>= λ s. ok (text s)

  -- Bytes as they are, or a text.
  unfoldable pub read_data : Bool → Field → Bytes → Result ValueError (Value p)
  unfolding decoded_text
  read_data raw f b = if raw then ok (binary b) else decoded_text f.ccsid b

  unfoldable pub read_integer : Field → Bytes → Result ValueError (Value p)
  unfolding read_int
  read_integer f b =
      if not (length b == f.size)
      then err (unexpected_length (length b))
      else (read_int b >>= λ v.
          if ltb 0 f.scale then ok (text (scale_digits (format_int v) f.scale)) else ok (int v))

  unfoldable pub read_float : Bytes → Result ValueError (Value p)
  read_float b =
      if length b == 4
      then ok (float (float32_from_bits (be32_at b 0)))
      else if length b == 8
      then ok (float (float64_from_bits (be64_at b 0)))
      else err (unexpected_length (length b))

  abbrev parsed_time : Option p.Time → Result ValueError (Value p)
  parsed_time none = err (bad_time 0)
  parsed_time (some t) = ok (time t)

  -- The date and time types, from their text.
  unfoldable pub read_date : ℕ → Bytes → Zone → Result ValueError (Value p)
  read_date t s zone =
      if t == type_date
      then parsed_time (parse_time layout_date s zone)
      else if t == type_timestamp
      then parsed_time (parse_time layout_timestamp s zone)
      else ok (text (replace_byte b'.' b':' s))

  -- decodeValue
  unfoldable pub decode_value : Field → Bytes → Zone → Result ValueError (Value p)
  unfolding read_data read_integer read_float read_date var_data lob_data
  decode_value f b zone =
      let t = base_type f in
      let is_raw = f.ccsid == ccsid_binary in
      if t == type_char || t == type_graphic
      then read_data is_raw f b
      else if one_of t
          (type_varchar ∷ type_long_varchar ∷ type_row_id ∷ type_varbinary ∷ type_datalink ∷ [])
      then (var_data b 1 >>= λ d.
          read_data (is_raw || (t == type_varbinary || t == type_row_id)) f d)
      else if t == type_vargraphic || t == type_long_vargraph
      then (var_data b 2 >>= λ d. read_data is_raw f d)
      else if t == type_binary
      then ok (binary b)
      else if one_of t (type_blob ∷ type_clob ∷ type_dbclob ∷ [])
      then (lob_data b (t == type_dbclob) >>= λ d. read_data (t == type_blob || is_raw) f d)
      else if one_of t (type_smallint ∷ type_integer ∷ type_bigint ∷ [])
      then read_integer f b
      else if t == type_float
      then read_float b
      else if t == type_packed
      then (wrap bad_decimal (decode_packed b f.precision f.scale) >>= λ s. ok (text s))
      else if t == type_zoned
      then (wrap bad_decimal (decode_zoned b f.precision f.scale) >>= λ s. ok (text s))
      else if one_of t (type_date ∷ type_timestamp ∷ type_time ∷ [])
      then (wrap bad_text (decode_string registry (char_ccsid f) b) >>= λ s.
          read_date t (trim_right (λ c. c == b' ' || c == 0) s) zone)
      else err (unsupported_type t)
