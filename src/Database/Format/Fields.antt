-- ===== src/Database/Format/Fields.antt =====
-- The parameter format that the client sends describes the fields that it was built from.
use jt400_go.Prelude.{
  ℕ, ◌+◌, ◌*◌, ◌/◌, ◌^◌, ◌<◌, ◌≡◌, refl, sym, ap, List, [], ◌∷◌, ◌++◌, map, append-nil,
  append_assoc, arith, length, length-append, All,
}
use jt400_go.Go.{ok, Bytes, slice, be16_at, be32_at, uint16, uint32, be32}
use jt400_go.Go.Fields.{slice-append, uint32-append}
use jt400_go.Database.Format.{
  FormatError, Field, read_attributes, read_field, read_fields, parse_data_format, record_size,
  encode_field, encode_fields, encode_parameter_format,
}

-- The attributes fit the description's fields.
abbrev pub FieldFits : Field → Type 0
FieldFits f =
    (f.sql_type < 2 ^ 16)
    × (f.size < 2 ^ 32)
    × (f.scale < 2 ^ 16)
    × (f.precision < 2 ^ 16)
    × (f.ccsid < 2 ^ 16)

-- The field as a parameter marker: nullable and unnamed.
abbrev pub as_parameter : Field → Field
as_parameter f = record f { sql_type = f.sql_type / 2 * 2 + 1; name = [] }

length-encode_field : (f : Field) → length (encode_field f) ≡ 64
unfolding encode_field
length-encode_field f = refl

length-encode_fields : (fs : List Field) → length (encode_fields fs) ≡ length fs * 64
unfolding encode_fields
length-encode_fields [] = refl
length-encode_fields (f ∷ fs) = omega (
  arith,
  length-append (encode_field f) (encode_fields fs),
  length-encode_field f,
  length-encode_fields fs,
)

module _ (decode_text : ℕ → Bytes → Bytes) where
  read_field-encode_field :
      (f : Field) (rest : Bytes)
      → FieldFits f
      → read_field decode_text (encode_field f ++ rest) ≡ ok (as_parameter f)
  unfolding read_field read_attributes encode_field uint16 uint32 be16_at be32_at
  read_field-encode_field f rest h = ground arith

  read_fields-encode_fields :
      (fs : List Field) (pre : Bytes) (i : ℕ)
      → length pre ≡ 16 + i * 64
      → All FieldFits fs
      → read_fields decode_text (length fs) i (pre ++ encode_fields fs) ≡ ok (map as_parameter fs)
  unfolding read_fields encode_fields
  read_fields-encode_fields [] pre i e h = refl
  read_fields-encode_fields (f ∷ fs) pre i e h =
      let all = encode_field f ++ encode_fields fs in
      let cutting : slice {E = FormatError} (pre ++ all) (16 + i * 64) (length (pre ++ all))
          ≡ ok all =
        rw append-nil at (
          slice-append {E = FormatError} pre all [] (16 + i * 64) (length (pre ++ (all ++ [])))
            (sym e) (omega (arith, length-append pre (all ++ []), ap length (append-nil all)))) in
      let more =
        read_fields-encode_fields fs (pre ++ encode_field f) (i + 1)
          (omega (arith, length-append pre (encode_field f), length-encode_field f)) h.1 in
      rw cutting
        (rw (read_field-encode_field f (encode_fields fs) h.0) (rw (rw append_assoc at more)))

  read-All :
      (fs : List Field)
      → All FieldFits fs
      → read_fields decode_text (length fs) 0 (encode_parameter_format fs)
        ≡ ok (map as_parameter fs)
  unfolding encode_parameter_format
  read-All fs h =
      read_fields-encode_fields fs
        (be32 1 ++ (be32 (length fs) ++ (be32 0 ++ be32 (record_size fs)))) 0 refl h

length_format : (fs : List Field) → length (encode_parameter_format fs) ≡ 16 + length fs * 64
unfolding encode_parameter_format
length_format fs = omega (arith, length-encode_fields fs)

read_count :
    (fs : List Field)
    → length fs < 2 ^ 32
    → uint32 {E = FormatError} (encode_parameter_format fs) 4 ≡ ok (length fs)
unfolding encode_parameter_format
read_count fs h = uint32-append (be32 1) _ _ 4 refl h

read_size :
    (fs : List Field)
    → record_size fs < 2 ^ 32
    → uint32 {E = FormatError} (encode_parameter_format fs) 12 ≡ ok (record_size fs)
unfolding encode_parameter_format
read_size fs h =
    uint32-append (be32 1 ++ (be32 (length fs) ++ be32 0)) (encode_fields fs) _ 12 refl h

-- Reading the parameter format that encodeParameterFormat built, with the parser for the server's
-- formats: the same fields in the same order, each nullable and unnamed, and the record size is
-- the sum of the field lengths.
pub parse_data_format-encode_parameter_format :
    (decode_text : ℕ → Bytes → Bytes) (fs : List Field)
    → All FieldFits fs
    → length fs < 2 ^ 32
    → record_size fs < 2 ^ 32
    → parse_data_format decode_text (encode_parameter_format fs)
      ≡ ok (record { fields = map as_parameter fs; record_size = record_size fs })
unfolding parse_data_format
parse_data_format-encode_parameter_format decode_text fs h count size =
    ground
      (arith, length_format fs, read_count fs count, read_size fs size, read-All decode_text fs h)
