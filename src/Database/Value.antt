-- ===== src/Database/Value.antt =====
-- database/value.go: the values of parameters and columns, and the SQL types of fields.
-- Floating-point numbers, times, and the Unicode tables behind strings.TrimSpace are not defined here:
-- a Platform gives their types and what the code asks of them.
pub mod Read
pub mod Write
pub mod Sizes
pub mod RoundTrip
pub mod Sample
mod Runs
use jt400_go.Prelude.{
  ℕ, zero, suc, ◌+◌, ◌-◌, ◌*◌, ◌/◌, ◌%◌, ◌^◌, ◌≤◌, ◌<◌, min, bit_and, bit_or, bit_xor, ◌≡◌, refl,
  sym, ap, ◌∙◌, ◌≢◌, ◌↔◌, ◌⊎◌, inl, inr, Bool, true, false, not, ◌&&◌, ◌||◌, Option, none, some,
  List, [], ◌∷◌, ◌++◌, map, append-nil, append_assoc, arith, ltb, leb, ◌==◌, if◌then◌else◌, ltb→lt,
  lt→ltb, leb→le, ==_iff, tests, Bool-cases, Option-cases, length, get_elem?, length-append, get_or,
  take, drop, replicate, length-take, length-drop, length-replicate, length-map, All, All-append,
  get_or-append, drop-append, take-append_length,
}
use jt400_go.Prelude.Int.{ℤ, pos, negsuc}
use jt400_go.Go.{
  Result, ok, err, panic, stuck, ◌>>=◌, wrap, returns, Bytes, IsByte, slice, byte_at, be16_at,
  be32_at, uint16, uint32, be16, be32, signed16, signed32, signed64, unsigned,
}
use jt400_go.Go.Fields.{
  slice_ok, uint16_ok, uint32_ok, byte_at_ok, slice-append, uint16-append, uint32-append,
}
use jt400_go.Go.Outcome.{>>=-eq-ok, returns-cases, returns->>=, wrap-returns}
use jt400_go.Go.Strings.{codes}
use jt400_go.Go.Numbers.{format_nat}
use jt400_go.Database.Format.{Field, base_type}
use jt400_go.Database.Ccsid.{TextError, ccsid_ebcdic37}
use jt400_go.Database.Decimal.{DecimalError}

-- What the code uses of packages math, time and strings on values of their types.
pub record Platform : Type 1 where
  pub Float : Type 0
  pub Time : Type 0
  pub Zone : Type 0
  -- strconv.FormatFloat(x, 'f', -1, 64) and strconv.ParseFloat(s, 64)
  pub format_float : Float → Bytes
  pub parse_float : Bytes → Option Float
  -- float64(n), int64(x), x == math.Trunc(x), x < math.MinInt64, x >= math.MaxInt64
  pub float_of_int : ℤ → Float
  pub int_of_float : Float → ℤ
  pub is_whole : Float → Bool
  pub below_min_int64 : Float → Bool
  pub reaches_max_int64 : Float → Bool
  -- math.IsNaN(x) || math.IsInf(x, 0)
  pub is_special : Float → Bool
  -- math.Float32bits(float32(x)), math.Float64bits(x), and back
  pub float32_bits : Float → ℕ
  pub float64_bits : Float → ℕ
  pub float32_from_bits : ℕ → Float
  pub float64_from_bits : ℕ → Float
  -- x.In(loc).Format(layout) and time.ParseInLocation(layout, s, loc)
  pub format_time : Bytes → Time → Zone → Bytes
  pub parse_time : Bytes → Bytes → Zone → Option Time
  pub trim_space : Bytes → Bytes

-- A driver.Value other than nil.
pub data Value (p : Platform) : Type 0 where
  text : Bytes → Value p
  binary : Bytes → Value p
  int : ℤ → Value p
  float : Platform.Float p → Value p
  bool : Bool → Value p
  time : Platform.Time p → Value p

-- The errors of encodeValue and decodeValue, one constructor for each kind of place.
pub data ValueError : Type 0 where
  unsupported_type unexpected_length does_not_fit scaled_integer out_of_range bad_time :
      ℕ → ValueError
  no_length_prefix declares_too_much : ℕ → ValueError
  not_binary not_text not_integer not_float not_decimal : ValueError
  bad_text : TextError → ValueError
  bad_decimal : DecimalError → ValueError

abbrev pub type_date : ℕ
type_date = 384

abbrev pub type_time : ℕ
type_time = 388

abbrev pub type_timestamp : ℕ
type_timestamp = 392

abbrev pub type_datalink : ℕ
type_datalink = 396

abbrev pub type_blob : ℕ
type_blob = 404

abbrev pub type_clob : ℕ
type_clob = 408

abbrev pub type_dbclob : ℕ
type_dbclob = 412

abbrev pub type_varchar : ℕ
type_varchar = 448

abbrev pub type_char : ℕ
type_char = 452

abbrev pub type_long_varchar : ℕ
type_long_varchar = 456

abbrev pub type_vargraphic : ℕ
type_vargraphic = 464

abbrev pub type_graphic : ℕ
type_graphic = 468

abbrev pub type_long_vargraph : ℕ
type_long_vargraph = 472

abbrev pub type_float : ℕ
type_float = 480

abbrev pub type_packed : ℕ
type_packed = 484

abbrev pub type_zoned : ℕ
type_zoned = 488

abbrev pub type_bigint : ℕ
type_bigint = 492

abbrev pub type_integer : ℕ
type_integer = 496

abbrev pub type_smallint : ℕ
type_smallint = 500

abbrev pub type_row_id : ℕ
type_row_id = 904

abbrev pub type_varbinary : ℕ
type_varbinary = 908

abbrev pub type_binary : ℕ
type_binary = 912

abbrev pub type_blob_locator : ℕ
type_blob_locator = 960

abbrev pub type_clob_locator : ℕ
type_clob_locator = 964

abbrev pub type_dbclob_locator : ℕ
type_dbclob_locator = 968

abbrev pub type_decfloat : ℕ
type_decfloat = 996

-- The date and time layouts.
abbrev pub layout_date : Bytes
layout_date = codes "2006-01-02"

abbrev pub layout_time : Bytes
layout_time = codes "15.04.05"

abbrev pub layout_timestamp : Bytes
layout_timestamp = codes "2006-01-02-15.04.05"

-- The switch of typeName as a table.
abbrev pub type_names : List (ℕ × Bytes)
type_names =
    (type_date, codes "DATE")
    ∷ (type_time, codes "TIME")
    ∷ (type_timestamp, codes "TIMESTAMP")
    ∷ (type_datalink, codes "DATALINK")
    ∷ (type_blob, codes "BLOB")
    ∷ (type_clob, codes "CLOB")
    ∷ (type_dbclob, codes "DBCLOB")
    ∷ (type_varchar, codes "VARCHAR")
    ∷ (type_char, codes "CHAR")
    ∷ (type_long_varchar, codes "LONG VARCHAR")
    ∷ (type_vargraphic, codes "VARGRAPHIC")
    ∷ (type_graphic, codes "GRAPHIC")
    ∷ (type_long_vargraph, codes "LONG VARGRAPHIC")
    ∷ (type_float, codes "FLOAT")
    ∷ (type_packed, codes "DECIMAL")
    ∷ (type_zoned, codes "NUMERIC")
    ∷ (type_bigint, codes "BIGINT")
    ∷ (type_integer, codes "INTEGER")
    ∷ (type_smallint, codes "SMALLINT")
    ∷ (type_row_id, codes "ROWID")
    ∷ (type_varbinary, codes "VARBINARY")
    ∷ (type_binary, codes "BINARY")
    ∷ (type_blob_locator, codes "BLOB LOCATOR")
    ∷ (type_clob_locator, codes "CLOB LOCATOR")
    ∷ (type_dbclob_locator, codes "DBCLOB LOCATOR")
    ∷ (type_decfloat, codes "DECFLOAT")
    ∷ []

unfoldable pub name_in : List (ℕ × Bytes) → ℕ → Option Bytes
name_in [] t = none
name_in ((k, name) ∷ table) t = if k == t then some name else name_in table t

-- typeName
unfoldable pub type_name : ℕ → Bytes
unfolding name_in
type_name t = elim (name_in type_names t) [
  | some name ↦ name
  | none ↦ codes "SQLTYPE(" ++ (format_nat t ++ codes ")")
]

-- charCCSID
unfoldable pub char_ccsid : Field → ℕ
char_ccsid f = if f.ccsid == 0 then ccsid_ebcdic37 else f.ccsid
