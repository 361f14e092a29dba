-- ===== src/Rmtcmd/Rle/Laws.antt =====
-- Decompression against the record format: a source is a sequence of records, each of which stands
-- for some bytes.
use jt400_go.Prelude.{
  ℕ, zero, suc, ◌+◌, ◌*◌, ◌^◌, ◌≤◌, ◌<◌, ◌≡◌, refl, sym, ap, ◌∙◌, ◌≢◌, true, List, [], ◌∷◌, ◌++◌,
  append-nil, append_assoc, arith, length, All,
}
use jt400_go.Go.{ok, returns, Bytes, be16}
use jt400_go.Rmtcmd.Rle.{rle_escape, append_pairs, decompress_loop, decompress_rle}

-- The records of the compressed form.
pub data Record : Type 0 where
  literal_escape : Record
  repeat_pair : ℕ → ℕ → ℕ → Record
  plain_byte : ℕ → Record

-- A repeater's pair does not begin with the escape byte and its count fits two bytes; a plain byte
-- is not the escape byte.
abbrev pub IsRecord : Record → Type 0
IsRecord literal_escape = Unit {0}
IsRecord (repeat_pair b1 b2 count) = (b1 ≢ rle_escape) × (count < 2 ^ 16)
IsRecord (plain_byte b) = b ≢ rle_escape

abbrev pub compress_record : Record → Bytes
compress_record literal_escape = rle_escape ∷ rle_escape ∷ []
compress_record (repeat_pair b1 b2 count) = rle_escape ∷ b1 ∷ b2 ∷ be16 count
compress_record (plain_byte b) = b ∷ []

abbrev pub pairs : ℕ → ℕ → ℕ → Bytes
pairs zero b1 b2 = []
pairs (suc n) b1 b2 = b1 ∷ b2 ∷ pairs n b1 b2

abbrev pub expand_record : Record → Bytes
expand_record literal_escape = rle_escape ∷ []
expand_record (repeat_pair b1 b2 count) = pairs count b1 b2
expand_record (plain_byte b) = b ∷ []

abbrev pub compress : List Record → Bytes
compress [] = []
compress (r ∷ rs) = compress_record r ++ compress rs

abbrev pub expand : List Record → Bytes
expand [] = []
expand (r ∷ rs) = expand_record r ++ expand rs

append_pairs-pairs :
    (n b1 b2 : ℕ) (dest : Bytes) → append_pairs n b1 b2 dest ≡ dest ++ pairs n b1 b2
unfolding append_pairs
append_pairs-pairs zero b1 b2 dest = sym (append-nil dest)
append_pairs-pairs (suc n) b1 b2 dest =
    append_pairs-pairs n b1 b2 (dest ++ (b1 ∷ b2 ∷ []))
    ∙ append_assoc dest (b1 ∷ b2 ∷ []) (pairs n b1 b2)

-- One record, whatever follows it.
decompress_loop-record :
    (r : Record) (fuel : ℕ) (rest dest : Bytes)
    → IsRecord r
    → decompress_loop (suc fuel) (compress_record r ++ rest) dest
      ≡ decompress_loop fuel rest (dest ++ expand_record r)
unfolding decompress_loop
decompress_loop-record literal_escape fuel rest dest h = refl
decompress_loop-record (repeat_pair b1 b2 count) fuel rest dest h =
    ground (arith, append_pairs-pairs count b1 b2 dest)
decompress_loop-record (plain_byte b) fuel rest dest h = ground arith

decompress_loop-compress :
    (rs : List Record) (fuel : ℕ) (dest : Bytes)
    → All IsRecord rs
    → length (compress rs) ≤ fuel
    → decompress_loop fuel (compress rs) dest ≡ ok (dest ++ expand rs)
decompress_loop-compress [] fuel dest h enough = rw append-nil (unfold decompress_loop in refl)
decompress_loop-compress (r ∷ rs) zero dest h enough = absurd (some_byte r enough)
  where
    some_byte : (r : Record) → length (compress_record r ++ compress rs) ≤ 0 → ⊥
    some_byte literal_escape e = omega arith
    some_byte (repeat_pair b1 b2 count) e = omega arith
    some_byte (plain_byte b) e = omega arith
decompress_loop-compress (r ∷ rs) (suc fuel) dest h enough =
    decompress_loop-record r fuel (compress rs) dest h.0
    ∙ decompress_loop-compress rs fuel (dest ++ expand_record r) h.1 (shorter r enough)
    ∙ ap ok (append_assoc dest (expand_record r) (expand rs))
  where
    shorter :
        (r : Record)
        → length (compress_record r ++ compress rs) ≤ suc fuel
        → length (compress rs) ≤ fuel
    shorter literal_escape e = omega arith
    shorter (repeat_pair b1 b2 count) e = omega arith
    shorter (plain_byte b) e = omega arith

-- Every sequence of records decompresses to the bytes that it stands for.
pub decompress_rle-compress :
    (rs : List Record) (declared : ℕ)
    → All IsRecord rs
    → decompress_rle (compress rs) declared ≡ ok (expand rs)
unfolding decompress_rle
decompress_rle-compress rs declared h =
    decompress_loop-compress rs (length (compress rs)) [] h (omega arith)

decompress_loop-returns :
    (fuel : ℕ) (source dest : Bytes)
    → length source ≤ fuel
    → returns (decompress_loop fuel source dest) ≡ true
unfolding decompress_loop
decompress_loop-returns fuel [] dest h = refl
decompress_loop-returns zero (c ∷ source) dest h = absurd (omega arith)
decompress_loop-returns (suc fuel) (c ∷ []) dest h =
    ground (arith, decompress_loop-returns fuel [] (dest ++ (c ∷ [])))
decompress_loop-returns (suc fuel) (c ∷ b1 ∷ []) dest h = ground (
  arith,
  decompress_loop-returns fuel (b1 ∷ []) (dest ++ (c ∷ [])),
  decompress_loop-returns fuel ([]) (dest ++ (rle_escape ∷ [])),
)
decompress_loop-returns (suc fuel) (c ∷ b1 ∷ b2 ∷ []) dest h = ground (
  arith,
  decompress_loop-returns fuel (b1 ∷ b2 ∷ []) (dest ++ (c ∷ [])),
  decompress_loop-returns fuel (b2 ∷ []) (dest ++ (rle_escape ∷ [])),
)
decompress_loop-returns (suc fuel) (c ∷ b1 ∷ b2 ∷ hi ∷ []) dest h = ground (
  arith,
  decompress_loop-returns fuel (b1 ∷ b2 ∷ hi ∷ []) (dest ++ (c ∷ [])),
  decompress_loop-returns fuel (b2 ∷ hi ∷ []) (dest ++ (rle_escape ∷ [])),
)
decompress_loop-returns (suc fuel) (c ∷ b1 ∷ b2 ∷ hi ∷ lo ∷ rest) dest h = ground (
  arith,
  decompress_loop-returns fuel (b1 ∷ b2 ∷ hi ∷ lo ∷ rest) (dest ++ (c ∷ [])),
  decompress_loop-returns fuel (b2 ∷ hi ∷ lo ∷ rest) (dest ++ (rle_escape ∷ [])),
  decompress_loop-returns fuel rest (append_pairs (hi * 256 + lo) b1 b2 dest),
)

-- decompressRLE returns on every source: malformed records are errors, and each round takes a byte.
pub decompress_rle-returns :
    (source : Bytes) (declared : ℕ) → returns (decompress_rle source declared) ≡ true
unfolding decompress_rle
decompress_rle-returns source declared =
    decompress_loop-returns (length source) source [] (omega arith)
