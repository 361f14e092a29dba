-- ===== src/Database/Format.antt =====
-- database/format.go: descriptions of result columns and parameter markers.
-- decodeServerText, which converts by golang.org/x/text, is the parameter `decode_text`. An int holds
-- 64 bits, so the sums of 32-bit fields here do not wrap.
pub mod Fields
pub mod Safe
use jt400_go.Prelude.{
  ℕ, zero, suc, ◌+◌, ◌*◌, ◌/◌, ◌%◌, Bool, not, ◌&&◌, ◌||◌, List, [], ◌∷◌, ◌++◌, ltb, leb, ◌==◌,
  if◌then◌else◌, length, replicate,
}
use jt400_go.Go.{Result, ok, err, stuck, ◌>>=◌, Bytes, slice, uint16, uint32, be16, be32}

pub data FormatError : Type 0 where
  format_too_short : ℕ → FormatError
  declares_fields : ℕ → ℕ → FormatError
  data_too_short : ℕ → FormatError
  declares_rows : ℕ → ℕ → ℕ → FormatError

abbrev pub format_header_length : ℕ
format_header_length = 16

abbrev pub format_field_length : ℕ
format_field_length = 64

abbrev pub super_field_length : ℕ
super_field_length = 48

-- `size` is the field length.
pub record Field : Type 0 where
  pub sql_type : ℕ
  pub size : ℕ
  pub scale : ℕ
  pub precision : ℕ
  pub ccsid : ℕ
  pub name : Bytes

-- baseType: sqlType &^ 1, and nullable: sqlType & 1 != 0
abbrev pub base_type : Field → ℕ
base_type f = f.sql_type / 2 * 2

abbrev pub nullable : Field → Bool
nullable f = not (f.sql_type % 2 == 0)

pub record DataFormat : Type 0 where
  pub fields : List Field
  pub record_size : ℕ

-- The fixed attributes at the front of a description.
unfoldable pub read_attributes : Bytes → Result FormatError Field
read_attributes b = do
  sql_type ← uint16 b 2
  size ← uint32 b 4
  scale ← uint16 b 8
  precision ← uint16 b 10
  ccsid ← uint16 b 12
  ok (record {
    sql_type = sql_type;
    size = size;
    scale = scale;
    precision = precision;
    ccsid = ccsid;
    name = [];
  })

-- recordSize
unfoldable pub record_size : List Field → ℕ
record_size [] = 0
record_size (f ∷ fs) = f.size + record_size fs

module _ (decode_text : ℕ → Bytes → Bytes) where
  -- One description of parseDataFormat, from b = d[formatHeaderLength+i*formatFieldLength:].
  unfoldable pub read_field : Bytes → Result FormatError Field
  read_field b = do
    f ← read_attributes b
    name_len ← uint16 b 30
    name_ccsid ← uint16 b 32
    let named : Result FormatError Field =
        if ltb 0 name_len && leb (34 + name_len) format_field_length
        then (slice b 34 (34 + name_len) >>= λ text.
            ok (record f { name = decode_text name_ccsid text }))
        else ok f
    named

  -- The loop of parseDataFormat from field i on, with `n` fields left.
  unfoldable pub read_fields : ℕ → ℕ → Bytes → Result FormatError (List Field)
  read_fields zero i d = ok []
  read_fields (suc n) i d = do
    b ← slice d (format_header_length + i * format_field_length) (length d)
    f ← read_field b
    fs ← read_fields n (i + 1) d
    ok (f ∷ fs)

  -- parseDataFormat
  unfoldable pub parse_data_format : Bytes → Result FormatError DataFormat
  parse_data_format d =
      if ltb (length d) format_header_length then err (format_too_short (length d)) else do
        n ← uint32 d 4
        let checked : Result FormatError DataFormat =
            if ltb (length d) (format_header_length + n * format_field_length)
            then err (declares_fields n (length d))
            else do
              size ← uint32 d 12
              fields ← read_fields n 0 d
              ok (record { fields = fields; record_size = size })
        checked

  -- The search for a field's name among the LL/CP entries of its variable information. An entry
  -- lies inside d and moves `position` by eight at least, so one round more than the bytes of d is enough.
  unfoldable pub find_name : ℕ → Bytes → ℕ → ℕ → ℕ → Result FormatError Bytes
  find_name zero d base var_length position = if leb (position + 8) var_length then stuck else ok []
  find_name (suc fuel) d base var_length position =
      let entry = base + position in
      let round : Result FormatError Bytes = if ltb (length d) (entry + 8) then ok [] else do
        ll ← uint32 d entry
        let inside : Result FormatError Bytes =
            if ltb ll 8 || ltb (length d) (entry + ll) then ok [] else do
              cp ← uint16 d (entry + 4)
              let found : Result FormatError Bytes = do
                name_ccsid ← uint16 d (entry + 6)
                text ← slice d (entry + 8) (entry + ll)
                ok (decode_text name_ccsid text)
              let more = find_name fuel d base var_length (position + ll)
              if cp == 0x3840 then found else more
        inside
      in if leb (position + 8) var_length then round else ok []

  -- One description of parseSuperExtendedFormat.
  unfoldable pub read_super_field : Bytes → ℕ → Result FormatError Field
  read_super_field d i = do
    let base = format_header_length + i * super_field_length
    b ← slice d base (base + super_field_length)
    f ← read_attributes b
    var_offset ← uint32 b 32
    var_length ← uint32 b 36
    name ← find_name (suc (length d)) d (base + var_offset) var_length 0
    ok (record f { name = name })

  unfoldable pub read_super_fields : ℕ → ℕ → Bytes → Result FormatError (List Field)
  read_super_fields zero i d = ok []
  read_super_fields (suc n) i d = do
    f ← read_super_field d i
    fs ← read_super_fields n (i + 1) d
    ok (f ∷ fs)

  -- parseSuperExtendedFormat
  unfoldable pub parse_super_extended_format : Bytes → Result FormatError DataFormat
  parse_super_extended_format d =
      if ltb (length d) format_header_length then err (format_too_short (length d)) else do
        n ← uint32 d 4
        let checked : Result FormatError DataFormat =
            if ltb (length d) (format_header_length + n * super_field_length)
            then err (declares_fields n (length d))
            else do
              size ← uint32 d 12
              fields ← read_super_fields n 0 d
              ok (record { fields = fields; record_size = size })
        checked

-- One description of encodeParameterFormat: 64 bytes, unnamed, marked nullable (sqlType | 1).
unfoldable pub encode_field : Field → Bytes
encode_field f =
    be16 format_field_length
    ++ (be16 (f.sql_type / 2 * 2 + 1)
        ++ (be32 f.size
            ++ (be16 f.scale ++ (be16 f.precision ++ (be16 f.ccsid ++ replicate 50 0)))))

unfoldable pub encode_fields : List Field → Bytes
encode_fields [] = []
encode_fields (f ∷ fs) = encode_field f ++ encode_fields fs

-- encodeParameterFormat
unfoldable pub encode_parameter_format : List Field → Bytes
unfolding encode_fields encode_field record_size
encode_parameter_format fields =
    be32 1
    ++ (be32 (length fields) ++ (be32 0 ++ (be32 (record_size fields) ++ encode_fields fields)))
