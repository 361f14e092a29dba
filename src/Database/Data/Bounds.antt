-- ===== src/Database/Data/Bounds.antt =====
-- When the rows and indicators of a block lie inside it, and the headers whose size wraps.
use jt400_go.Prelude.{
  ℕ, zero, suc, ◌+◌, ◌-◌, ◌*◌, ◌/◌, ◌%◌, ◌^◌, ◌≤◌, ◌<◌, ◌≡◌, refl, ◌∙◌, ◌⊎◌, inl, inr, true, false,
  ◌++◌, arith, length, take, drop, length-take, length-drop,
}
use jt400_go.Go.{ok, panic, returns, Bytes, be16_at, be32_at, uint16, uint32, be16, be32, signed64}
use jt400_go.Go.Fields.{slice_ok, uint16_ok, uint32_ok}
use jt400_go.Database.Format.{FormatError}
use jt400_go.Database.Data.{
  ResultData, needed, parse_result_data, indicator, row_start, row, exceeds,
}
use jt400_go.Database.Data.Offsets.{slice_between-small, word_between-small, slice_between-past}

pub parse_result_data-returns : (d : Bytes) → returns (parse_result_data d) ≡ true
unfolding parse_result_data
parse_result_data-returns d = ground (
  arith,
  uint32_ok {E = FormatError} d 4,
  uint16_ok {E = FormatError} d 8,
  uint16_ok {E = FormatError} d 10,
  uint32_ok {E = FormatError} d 16,
)

-- The size that the header of a block stands for.
abbrev pub size_of : ResultData → ℕ
size_of rd = needed rd.row_count rd.column_count rd.indicator_size rd.row_size

parse_result_data_fits :
    (d : Bytes) (rd : ResultData)
    → parse_result_data d ≡ ok rd
    → size_of rd < 2 ^ 63
    → (size_of rd ≤ length d) × (rd.raw ≡ d)
unfolding parse_result_data
parse_result_data_fits d rd e small = ground (
  arith,
  uint32_ok {E = FormatError} d 4,
  uint16_ok {E = FormatError} d 8,
  uint16_ok {E = FormatError} d 10,
  uint32_ok {E = FormatError} d 16,
)

row_in_range :
    (rows columns size row_size i : ℕ)
    → i < rows
    → 20 + rows * columns * size + i * row_size + row_size ≤ 20 + rows * (columns * size + row_size)
row_in_range rows columns size row_size i h = grind arith

indicator_in_range :
    (rows columns size row_size r c : ℕ)
    → r < rows
    → c < columns
    → 2 ≤ size
    → 20 + size * (r * columns + c) + 2 ≤ 20 + rows * (columns * size + row_size)
indicator_in_range rows columns size row_size r c hr hc hs =
    let cell : r * columns + c + 1 ≤ rows * columns = grind arith in
    let scaled : size * (r * columns + c + 1) ≤ size * (rows * columns) = grind arith in
    omega (arith, scaled, hs)

-- A block that parseResultData accepts, and whose size as its header gives it stays below 2^63:
-- every row is a slice of the row size, and every null indicator can be read, if indicators are
-- absent or at least two bytes wide.
pub parse_result_data_bounds :
    (d : Bytes) (rd : ResultData) (r c : ℕ)
    → parse_result_data d ≡ ok rd
    → size_of rd < 2 ^ 63
    → r < rd.row_count
    → c < rd.column_count
    → (rd.indicator_size ≡ 0) ⊎ (2 ≤ rd.indicator_size)
    → ((cells : Bytes) × (row rd r ≡ ok cells) × (length cells ≡ rd.row_size))
      × (returns (indicator rd r c) ≡ true)
unfolding row indicator
parse_result_data_bounds d rd r c e small hr hc wide =
    let (fits, same) = parse_result_data_fits d rd e small in
    let inside = row_in_range rd.row_count rd.column_count rd.indicator_size rd.row_size r hr in
    let room : row_start rd r + rd.row_size ≤ length rd.raw =
      rw same (omega (arith, inside, fits)) in
    (
      (
        take (row_start rd r + rd.row_size - row_start rd r) (drop (row_start rd r) rd.raw),
        slice_between-small rd.raw (row_start rd r) (row_start rd r + rd.row_size) (omega arith)
              (omega (arith, inside, small))
            ∙ slice_ok rd.raw (row_start rd r) (row_start rd r + rd.row_size) (omega arith) room,
        omega (
          arith,
          length-take (row_start rd r + rd.row_size - row_start rd r)
              (drop (row_start rd r) rd.raw),
          length-drop (row_start rd r) rd.raw,
        ),
      ),
      readable wide,
    )
  where
    readable : (rd.indicator_size ≡ 0) ⊎ (2 ≤ rd.indicator_size) → returns (indicator rd r c) ≡ true
    readable (inl none_sent) = ground arith
    readable (inr two) =
        let (fits, same) = parse_result_data_fits d rd e small in
        let inside =
          indicator_in_range rd.row_count rd.column_count rd.indicator_size rd.row_size r c hr hc
            two in
        let room : 20 + rd.indicator_size * (r * rd.column_count + c) + 2 ≤ length rd.raw =
          rw same (omega (arith, inside, fits)) in
        let at_word = 20 + rd.indicator_size * (r * rd.column_count + c) in
        rw
          (
            word_between-small rd.raw at_word (omega (arith, inside, small)),
            uint16_ok {E = FormatError} rd.raw at_word room,
          )
          (ground arith)

-- A block that is only a header.
abbrev pub bare_header : ℕ → ℕ → ℕ → ℕ → Bytes
bare_header rows columns size row_size =
    be32 1 ++ (be32 rows ++ (be16 columns ++ (be16 size ++ (be32 0 ++ be32 row_size))))

word32 :
    (v : ℕ)
    → v < 2 ^ 32
    → v / 16777216 % 256 * 16777216 + v / 65536 % 256 * 65536 + v / 256 % 256 * 256 + v % 256 ≡ v
word32 v h = omega arith

word16 : (v : ℕ) → v < 2 ^ 16 → v / 256 % 256 * 256 + v % 256 ≡ v
word16 v h = omega arith

wraps_negative : (n len : ℕ) → 2 ^ 63 ≤ n → n < 2 ^ 64 → exceeds (signed64 (n % 2 ^ 64)) len ≡ false
wraps_negative n len h k = ground arith

some_cell :
    (rows columns size row_size : ℕ)
    → 2 ^ 63 ≤ needed rows columns size row_size
    → 20 < 20 + rows * columns * size + 0 * row_size + row_size
some_cell rows columns size zero h = omega arith
some_cell rows columns size (suc row_size) h = omega arith

first_row :
    (rows columns size row_size : ℕ)
    → 2 ^ 63 ≤ needed rows columns size row_size
    → needed rows columns size row_size < 2 ^ 64
    → 20 + rows * columns * size + 0 * row_size + row_size < 2 ^ 64
first_row zero columns size row_size large small = absurd (omega arith)
first_row (suc rows) columns size row_size large small =
    omega (arith, row_in_range (suc rows) columns size row_size 0 (omega arith), small)

-- Where the size of a block lies between 2^63 and 2^64, the int that holds it is negative: a bare
-- header of 20 bytes that declares such a block is accepted, and reading its first row panics.
pub parse_result_data_wraps :
    (rows columns size row_size : ℕ)
    → rows < 2 ^ 32
    → columns < 2 ^ 16
    → size < 2 ^ 16
    → row_size < 2 ^ 32
    → 2 ^ 63 ≤ needed rows columns size row_size
    → needed rows columns size row_size < 2 ^ 64
    → (rd : ResultData) × (parse_result_data (bare_header rows columns size row_size) ≡ ok rd)
      × (rd.row_count ≡ rows)
      × (row rd 0 ≡ panic)
unfolding parse_result_data row uint16 uint32 be16_at be32_at
parse_result_data_wraps rows columns size row_size h1 h2 h3 h4 large small = (
  record {
    raw = bare_header rows columns size row_size;
    row_count = rows;
    column_count = columns;
    indicator_size = size;
    row_size = row_size;
  },
  rw (word32 rows h1, word16 columns h2)
      (rw (word16 size h3, word32 row_size h4)
        (rw (wraps_negative (needed rows columns size row_size) 20 large small))),
  refl,
  slice_between-past (bare_header rows columns size row_size) _
      (20 + rows * columns * size + 0 * row_size + row_size)
      (some_cell rows columns size row_size large)
      (first_row rows columns size row_size large small),
)
