-- ===== src/Rmtcmd/Rle.antt =====
-- rmtcmd/rle.go: the run-length decompression of an output parameter.
pub mod Laws
use jt400_go.Prelude.{ℕ, zero, suc, ◌+◌, ◌*◌, not, [], ◌∷◌, ◌++◌, ◌==◌, if◌then◌else◌, length}
use jt400_go.Go.{Result, ok, err, stuck, Bytes}

abbrev pub rle_escape : ℕ
rle_escape = 0x1B

pub data RleError : Type 0 where
  truncated_escape : RleError
  truncated_repeater : RleError

-- `for k := 0; k < count; k++ { dest = append(dest, b1, b2) }`
unfoldable pub append_pairs : ℕ → ℕ → ℕ → Bytes → Bytes
append_pairs zero b1 b2 dest = dest
append_pairs (suc count) b1 b2 dest = append_pairs count b1 b2 (dest ++ (b1 ∷ b2 ∷ []))

-- The loop of decompressRLE over source[i:]. Where Go tests an index against the length, the
-- clause sees whether the bytes are there.
unfoldable pub decompress_loop : ℕ → Bytes → Bytes → Result RleError Bytes
decompress_loop fuel [] dest = ok dest
decompress_loop zero (c ∷ source) dest = stuck
decompress_loop (suc fuel) (c ∷ source) dest =
    let plain = decompress_loop fuel source (dest ++ (c ∷ [])) in
    let escaped : Result RleError Bytes = elim source [
      | [] ↦ err truncated_escape
      | b1 ∷ rest ↦
          let literal = decompress_loop fuel rest (dest ++ (rle_escape ∷ [])) in
          let repeated : Result RleError Bytes = elim rest [
            | [] ↦ err truncated_repeater
            | b2 ∷ rest2 ↦ elim rest2 [
              | [] ↦ err truncated_repeater
              | hi ∷ rest3 ↦ elim rest3 [
                | [] ↦ err truncated_repeater
                | lo ∷ rest4 ↦ decompress_loop fuel rest4 (append_pairs (hi * 256 + lo) b1 b2 dest)
              ]
            ]
          ] in
          if b1 == rle_escape then literal else repeated
    ] in
    if not (c == rle_escape) then plain else escaped

-- decompressRLE. The declared length only sizes the buffer.
unfoldable pub decompress_rle : Bytes → ℕ → Result RleError Bytes
unfolding decompress_loop append_pairs
decompress_rle source decompressed_length = decompress_loop (length source) source []
