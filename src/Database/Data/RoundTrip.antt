-- ===== src/Database/Data/RoundTrip.antt =====
-- The row of parameter data that the client sends, read with the reader for the server's rows.
use jt400_go.Prelude.{
  ◌∙◌, ℕ, zero, suc, ◌+◌, ◌-◌, ◌*◌, ◌^◌, ◌<◌, ◌≡◌, refl, ap, Option, none, some, List, [], ◌∷◌,
  ◌++◌, append-nil, append_assoc, arith, length, get_elem?, length-append, take, replicate,
  length-replicate,
}
use jt400_go.Prelude.Int.{ℤ, pos, negsuc}
use jt400_go.Go.{ok, Bytes, be16_at, be32_at, uint16, uint32, be16, be32, signed16}
use jt400_go.Go.Fields.{slice-append, uint16-append}
use jt400_go.Database.Format.{FormatError, Field, record_size}
use jt400_go.Database.Data.{
  ResultData, parse_result_data, indicator, row, fill, encode_indicators, encode_row,
  encode_parameter_data,
}
use jt400_go.Database.Data.Offsets.{slice_between-small, word_between-small, uint16-room}

-- One value for each field; a value that is there fills its field.
abbrev pub Matches : List Field → List (Option Bytes) → Type 0
Matches [] [] = Unit {0}
Matches [] (v ∷ vs) = ⊥
Matches (f ∷ fs) [] = ⊥
Matches (f ∷ fs) (none ∷ vs) = Matches fs vs
Matches (f ∷ fs) (some b ∷ vs) = (length b ≡ f.size) × Matches fs vs

-- The row: each value, zeros for a NULL.
abbrev pub cells : List Field → List (Option Bytes) → Bytes
cells (f ∷ fs) (none ∷ vs) = replicate f.size 0 ++ cells fs vs
cells (f ∷ fs) (some b ∷ vs) = b ++ cells fs vs
cells _ _ = []

abbrev null_word : Option Bytes → ℕ
null_word none = 0xFFFF
null_word (some b) = 0

abbrev words : List (Option Bytes) → Bytes
words [] = []
words (v ∷ vs) = be16 (null_word v) ++ words vs

take_all {ℓ} : {A : Type ℓ} (xs : List A) → take (length xs) xs ≡ xs
take_all [] = refl
take_all (x ∷ xs) = ap (◌∷◌ x) (take_all xs)

fill_exact : (n : ℕ) (b : Bytes) → length b ≡ n → fill n b ≡ b
fill_exact n b e =
    let none_left : n - length b ≡ 0 = omega arith in
    rw none_left (rw append-nil (rw (← e) (take_all b)))

encode_row-cells :
    (fs : List Field) (vs : List (Option Bytes))
    → Matches fs vs
    → (encode_row fs vs ≡ ok (cells fs vs)) × (length (cells fs vs) ≡ record_size fs)
unfolding encode_row record_size
encode_row-cells [] [] h = (refl, refl)
encode_row-cells [] (v ∷ vs) h = absurd h
encode_row-cells (f ∷ fs) [] h = absurd h
encode_row-cells (f ∷ fs) (none ∷ vs) h = ground (
  arith,
  encode_row-cells fs vs h,
  length-append (replicate f.size 0) (cells fs vs),
  length-replicate {A = ℕ} f.size 0,
)
encode_row-cells (f ∷ fs) (some b ∷ vs) h =
    ground
      (arith, encode_row-cells fs vs h.1, length-append b (cells fs vs), fill_exact f.size b h.0)

encode_indicators-words :
    (fs : List Field) (vs : List (Option Bytes))
    → Matches fs vs
    → (encode_indicators fs vs ≡ ok (words vs)) × (length (words vs) ≡ length fs * 2)
unfolding encode_indicators
encode_indicators-words [] [] h = (refl, refl)
encode_indicators-words [] (v ∷ vs) h = absurd h
encode_indicators-words (f ∷ fs) [] h = absurd h
encode_indicators-words (f ∷ fs) (none ∷ vs) h = ground (arith, encode_indicators-words fs vs h)
encode_indicators-words (f ∷ fs) (some b ∷ vs) h = ground (arith, encode_indicators-words fs vs h.1)

abbrev pub null_indicator : Option Bytes → ℤ
null_indicator none = negsuc 0
null_indicator (some b) = pos 0

word_at :
    (vs : List (Option Bytes)) (pre rest : Bytes) (at_word c : ℕ) (w : Option Bytes)
    → at_word ≡ length pre + 2 * c
    → get_elem? vs c ≡ some w
    → uint16 {E = FormatError} (pre ++ (words vs ++ rest)) at_word ≡ ok (null_word w)
word_at [] pre rest at_word c w e h = cc
word_at (v ∷ vs) pre rest at_word zero w e h = ground (
  arith,
  uint16-append {E = FormatError} pre (words vs ++ rest) (null_word v) at_word,
  null_word_fits v,
)
  where
    null_word_fits : (v : Option Bytes) → null_word v < 65536
    null_word_fits none = omega arith
    null_word_fits (some b) = omega arith
word_at (v ∷ vs) pre rest at_word (suc c) w e h = ground (
  arith,
  word_at vs (pre ++ be16 (null_word v)) rest at_word c w,
  length-append pre (be16 (null_word v)),
  append_assoc pre (be16 (null_word v)) (words vs ++ rest),
)

signed_null_word : (v : Option Bytes) → signed16 (null_word v) ≡ null_indicator v
signed_null_word none = refl
signed_null_word (some b) = refl

abbrev header : List Field → Bytes
header fs =
    be32 1 ++ (be32 1 ++ (be16 (length fs) ++ (be16 2 ++ (be32 0 ++ be32 (record_size fs)))))

abbrev pub sent_bytes : List Field → List (Option Bytes) → Bytes
sent_bytes fs vs = header fs ++ (words vs ++ cells fs vs)

abbrev pub sent_block : List Field → List (Option Bytes) → ResultData
sent_block fs vs = record {
  raw = sent_bytes fs vs;
  row_count = 1;
  column_count = length fs;
  indicator_size = 2;
  row_size = record_size fs;
}

module _ (fs : List Field) (vs : List (Option Bytes)) (m : Matches fs vs) where
  length_sent : length (sent_bytes fs vs) ≡ 20 + length fs * 2 + record_size fs
  length_sent = omega (
    arith,
    length-append (words vs) (cells fs vs),
    (encode_indicators-words fs vs m).1,
    (encode_row-cells fs vs m).1,
  )

  encode_sent : encode_parameter_data fs vs ≡ ok (sent_bytes fs vs)
  unfolding encode_parameter_data
  encode_sent = rw ((encode_indicators-words fs vs m).0, (encode_row-cells fs vs m).0)

  parse_sent :
      length fs < 2 ^ 16
      → record_size fs < 2 ^ 32
      → parse_result_data (sent_bytes fs vs) ≡ ok (sent_block fs vs)
  unfolding parse_result_data uint16 uint32 be16_at be32_at
  parse_sent count size = ground (arith, length_sent)

  row_sent :
      length fs < 2 ^ 16 → record_size fs < 2 ^ 32 → row (sent_block fs vs) 0 ≡ ok (cells fs vs)
  unfolding row
  row_sent count size =
      let front = header fs ++ words vs in
      let front_length = (encode_indicators-words fs vs m).1 in
      slice_between-small (sent_bytes fs vs) (20 + 1 * length fs * 2 + 0 * record_size fs)
        (20 + 1 * length fs * 2 + 0 * record_size fs + record_size fs) (omega arith) (omega arith)
      ∙ rw append-nil at (
          slice-append {E = FormatError} front (cells fs vs) []
            (20 + 1 * length fs * 2 + 0 * record_size fs)
            (20 + 1 * length fs * 2 + 0 * record_size fs + record_size fs)
            (omega (arith, front_length)) (omega (arith, (encode_row-cells fs vs m).1)))

  indicator_sent :
      (c : ℕ) (v : Option Bytes)
      → length fs < 2 ^ 16
      → record_size fs < 2 ^ 32
      → get_elem? vs c ≡ some v
      → indicator (sent_block fs vs) 0 c ≡ ok (null_indicator v)
  unfolding indicator
  indicator_sent c v count size e =
      let at_word = 20 + 2 * (0 * length fs + c) in
      let word = word_at vs (header fs) (cells fs vs) at_word c v (omega arith) e in
      let room = uint16-room (sent_bytes fs vs) at_word (null_word v) word in
      let low : at_word < 2 ^ 63 = omega (arith, room, length_sent) in
      rw (word_between-small (sent_bytes fs vs) at_word low, word) (ap ok (signed_null_word v))

-- What the client sends for an execute reads back as one row: its cells are the values with zeros
-- for each NULL, and its null indicators are -1 exactly at the NULLs: `c` is the index of a value `v`.
pub parse_result_data-encode_parameter_data :
    (fs : List Field) (vs : List (Option Bytes)) (c : ℕ) (v : Option Bytes)
    → Matches fs vs
    → length fs < 2 ^ 16
    → record_size fs < 2 ^ 32
    → get_elem? vs c ≡ some v
    → (bytes : Bytes) × (rd : ResultData) × (encode_parameter_data fs vs ≡ ok bytes)
      × (parse_result_data bytes ≡ ok rd)
      × (rd.row_count ≡ 1)
      × (rd.column_count ≡ length fs)
      × (row rd 0 ≡ ok (cells fs vs))
      × (indicator rd 0 c ≡ ok (null_indicator v))
parse_result_data-encode_parameter_data fs vs c v m count size e = (
  sent_bytes fs vs,
  sent_block fs vs,
  encode_sent fs vs m,
  parse_sent fs vs m count size,
  refl,
  refl,
  row_sent fs vs m count size,
  indicator_sent fs vs m c v count size e,
)
