-- ===== src/Database/Value/Runs.antt =====
-- Values in fields of a concrete platform, and the theorems on values there.
use jt400_go.Prelude.{ℕ, ◌≡◌, refl, some, [], ◌∷◌, arith, inl, length, sym, ap}
use jt400_go.Prelude.Int.{pos, negsuc}
use jt400_go.Database.Value.Sample.{platform}
use jt400_go.Database.Value.Write.{
  string_value, int_value, encode_value, write_varying, write_integer, write_char, write_int,
  pad_text, data_value, write_prefixed, pad_loop, fits_signed,
}
use jt400_go.Database.Value.Sizes.{encode_value-length}
use jt400_go.Database.Value.Read.{decode_value}
use jt400_go.Database.Value.{text, ok, int, Bytes, err, out_of_range}
use jt400_go.Database.Format.{Field}
use jt400_go.Database.Ccsid.{encode_string, Registry, Encoding, decode_string, lookup_ccsid, blank}
use jt400_go.Database.Value.RoundTrip.{
  decode_value-encode_value_text, decode_value-encode_value_integer,
}

abbrev same : Encoding
same = record { encode = λ s. some s; decode = λ s. some s }

abbrev registry : Registry
registry = (37, same) ∷ []

abbrev column : ℕ → ℕ → ℕ → Field
column sql_type size ccsid = record {
  sql_type = sql_type;
  size = size;
  scale = 0;
  precision = 0;
  ccsid = ccsid;
  name = [];
}

-- A nullable SMALLINT with the value -2.
smallint_run :
    encode_value platform registry (column 501 2 0) (int (negsuc 1)) 0 ≡ ok (255 ∷ 254 ∷ [])
unfolding encode_value write_integer int_value write_int fits_signed
smallint_run = refl

smallint_refused :
    encode_value platform registry (column 500 2 0) (int (pos 32768)) 0 ≡ err (out_of_range 2)
unfolding encode_value write_integer int_value write_int fits_signed
smallint_refused = refl

varchar_run :
    encode_value platform registry (column 448 6 37) (text (72 ∷ 105 ∷ [])) 0
    ≡ ok (0 ∷ 2 ∷ 72 ∷ 105 ∷ 0 ∷ 0 ∷ [])
unfolding encode_value write_varying data_value string_value encode_string lookup_ccsid
    write_prefixed
varchar_run = refl

char_run :
    encode_value platform registry (column 452 4 37) (text (72 ∷ 105 ∷ [])) 0
    ≡ ok (72 ∷ 105 ∷ 32 ∷ 32 ∷ [])
unfolding encode_value write_char string_value pad_text pad_loop encode_string lookup_ccsid blank
char_run = refl

minus_two : int_value platform registry (int (negsuc 1)) ≡ ok (negsuc 1)
unfolding int_value
minus_two = refl

hi : string_value platform registry (text (72 ∷ 105 ∷ [])) 0 (column 448 6 37) ≡ ok (72 ∷ 105 ∷ [])
unfolding string_value
hi = refl

kept :
    (b : Bytes)
    → encode_string registry 37 (72 ∷ 105 ∷ []) ≡ ok b
    → decode_string registry 37 b ≡ ok (72 ∷ 105 ∷ [])
unfolding encode_string decode_string lookup_ccsid
kept b h = let same : (72 ∷ 105 ∷ []) ≡ b = cc in sym (ap ok same)

encode_value-length_example : length {A = ℕ} (72 ∷ 105 ∷ 32 ∷ 32 ∷ []) ≡ 4
encode_value-length_example =
    encode_value-length platform registry 0 (column 452 4 37) (text (72 ∷ 105 ∷ []))
      (72 ∷ 105 ∷ 32 ∷ 32 ∷ []) char_run

decode_value-encode_value_integer_example :
    decode_value platform registry (column 501 2 0) (255 ∷ 254 ∷ []) 1 ≡ ok (int (negsuc 1))
decode_value-encode_value_integer_example =
    decode_value-encode_value_integer platform registry (column 501 2 0) (int (negsuc 1)) 0 1
      (negsuc 1) (255 ∷ 254 ∷ []) (inl refl) refl minus_two (omega arith) smallint_run

decode_value-encode_value_text_example :
    decode_value platform registry (column 448 6 37) (0 ∷ 2 ∷ 72 ∷ 105 ∷ 0 ∷ 0 ∷ []) 1
    ≡ ok (text (72 ∷ 105 ∷ []))
decode_value-encode_value_text_example =
    decode_value-encode_value_text platform registry (column 448 6 37) (text (72 ∷ 105 ∷ [])) 0 1
      (72 ∷ 105 ∷ []) (0 ∷ 2 ∷ 72 ∷ 105 ∷ 0 ∷ 0 ∷ []) (inl refl) (omega arith) refl hi kept
      varchar_run
