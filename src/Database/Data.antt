-- ===== src/Database/Data.antt =====
-- database/format.go: blocks of result rows, and the row of parameter data of an execute.
pub mod Offsets
pub mod Bounds
pub mod RoundTrip
use jt400_go.Prelude.{
  ℕ, ◌+◌, ◌-◌, ◌*◌, ◌%◌, ◌^◌, Bool, false, Option, none, some, List, [], ◌∷◌, ◌++◌, ltb, ◌==◌,
  if◌then◌else◌, length, take, replicate,
}
use jt400_go.Prelude.Int.{ℤ, pos, negsuc}
use jt400_go.Go.{
  Result, ok, err, panic, ◌>>=◌, Bytes, slice, uint16, uint32, be16, be32, signed16, signed64,
}
use jt400_go.Database.Format.{FormatError, data_too_short, declares_rows, Field, record_size}

abbrev pub data_header_length : ℕ
data_header_length = 20

pub record ResultData : Type 0 where
  pub raw : Bytes
  pub row_count : ℕ
  pub column_count : ℕ
  pub indicator_size : ℕ
  pub row_size : ℕ

-- An int64 result that is greater than a length.
abbrev exceeds : ℤ → ℕ → Bool
exceeds (pos n) len = ltb len n
exceeds (negsuc n) len = false

-- dataHeaderLength + rowCount*(columnCount*indicatorSize+rowSize), before int wraps it to 64 bits.
abbrev pub needed : ℕ → ℕ → ℕ → ℕ → ℕ
needed rows columns indicator_size row_size =
    data_header_length + rows * (columns * indicator_size + row_size)

-- parseResultData. A row count from 32 bits is never negative.
unfoldable pub parse_result_data : Bytes → Result FormatError ResultData
parse_result_data d =
    if ltb (length d) data_header_length then err (data_too_short (length d)) else do
      rows ← uint32 d 4
      columns ← uint16 d 8
      indicator_size ← uint16 d 10
      row_size ← uint32 d 16
      let need = signed64 (needed rows columns indicator_size row_size % 2 ^ 64)
      let checked : Result FormatError ResultData =
          if exceeds need (length d)
          then err (declares_rows rows row_size (length d))
          else ok (record {
            raw = d;
            row_count = rows;
            column_count = columns;
            indicator_size = indicator_size;
            row_size = row_size;
          })
      checked

-- The int that holds an offset.
abbrev pub int_of : ℕ → ℤ
int_of n = signed64 (n % 2 ^ 64)

-- b[i:j] with ints: a negative one panics.
unfoldable pub slice_between : Bytes → ℤ → ℤ → Result FormatError Bytes
slice_between b (pos i) (pos j) = slice b i j
slice_between b (pos i) (negsuc j) = panic
slice_between b (negsuc i) j = panic

-- The word at an offset, binary.BigEndian.Uint16(b[i : i+2])
unfoldable pub word_between : Bytes → ℤ → Result FormatError ℕ
word_between b (pos i) = uint16 b i
word_between b (negsuc i) = panic

-- resultData.indicator, as the int16 that its two bytes hold.
unfoldable pub indicator : ResultData → ℕ → ℕ → Result FormatError ℤ
unfolding word_between
indicator rd r c = if rd.indicator_size == 0 then ok (pos 0) else do
  w ←
      word_between rd.raw
        (int_of (data_header_length + rd.indicator_size * (r * rd.column_count + c)))
  ok (signed16 w)

abbrev pub row_start : ResultData → ℕ → ℕ
row_start rd i =
    data_header_length + rd.row_count * rd.column_count * rd.indicator_size + i * rd.row_size

-- resultData.row
unfoldable pub row : ResultData → ℕ → Result FormatError Bytes
unfolding slice_between
row rd i = slice_between rd.raw (int_of (row_start rd i)) (int_of (row_start rd i + rd.row_size))

-- copy(row[off:off+f.length], value): the field's bytes, the rest of it left zero.
abbrev pub fill : ℕ → Bytes → Bytes
fill size v = take size v ++ replicate (size - length v) 0

-- The indicators and the row of encodeParameterData; fewer values than fields panic.
unfoldable pub encode_indicators : List Field → List (Option Bytes) → Result FormatError Bytes
encode_indicators [] values = ok []
encode_indicators (f ∷ fs) [] = panic
encode_indicators (f ∷ fs) (v ∷ values) =
    let w : ℕ = elim v [ none ↦ 0xFFFF | some b ↦ 0 ] in
    encode_indicators fs values >>= λ rest. ok (be16 w ++ rest)

unfoldable pub encode_row : List Field → List (Option Bytes) → Result FormatError Bytes
encode_row [] values = ok []
encode_row (f ∷ fs) [] = panic
encode_row (f ∷ fs) (v ∷ values) =
    let cell : Bytes = elim v [ none ↦ replicate f.size 0 | some b ↦ fill f.size b ] in
    encode_row fs values >>= λ rest. ok (cell ++ rest)

-- encodeParameterData
unfoldable pub encode_parameter_data : List Field → List (Option Bytes) → Result FormatError Bytes
encode_parameter_data fields values = do
  indicators ← encode_indicators fields values
  data_row ← encode_row fields values
  ok (
      be32 1
      ++ (be32 1
          ++ (be16 (length fields)
              ++ (be16 2 ++ (be32 0 ++ (be32 (record_size fields) ++ (indicators ++ data_row)))))))
