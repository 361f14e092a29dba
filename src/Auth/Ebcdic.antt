-- ===== src/Auth/Ebcdic.antt =====
-- as400/auth/ebcdic.go: the table for A-Z, 0-9, space, $ # @, and the fields coded with it.
-- A text is the list of its bytes. A Go map is an association list.
pub mod Laws
mod Runs
use jt400_go.Prelude.{
  ℕ, zero, suc, ◌+◌, ◌-◌, Option, none, some, List, [], ◌∷◌, ◌++◌, map, ltb, ◌==◌, if◌then◌else◌,
  length, replicate,
}
use jt400_go.Go.Strings.{trim_right}
use jt400_go.Go.{Result, ok, err, ◌>>=◌, Bytes}

-- A Go map's lookup.
unfoldable pub lookup : List (ℕ × ℕ) → ℕ → Option ℕ
lookup [] k = none
lookup ((j, v) ∷ m) k = if j == k then some v else lookup m k

-- `for i := 0; i < n; i++ { m[a+i] = e+i }`
unfoldable pub run : ℕ → ℕ → ℕ → List (ℕ × ℕ)
run zero a e = []
run (suc n) a e = (a, e) ∷ run n (a + 1) (e + 1)

-- buildASCIIToEBCDIC
unfoldable pub ascii_to_ebcdic : List (ℕ × ℕ)
unfolding run
ascii_to_ebcdic =
    (b' ', 0x40)
    ∷ (b'$', 0x5B)
    ∷ (b'#', 0x7B)
    ∷ (b'@', 0x7C)
    ∷ (run 9 b'A' 0xC1 ++ (run 9 b'J' 0xD1 ++ (run 8 b'S' 0xE2 ++ run 10 b'0' 0xF0)))

abbrev swap : ℕ × ℕ → ℕ × ℕ
swap (a, e) = (e, a)

-- buildEBCDICToASCII. Go ranges over the map in any order; no code stands in it twice.
unfoldable pub ebcdic_to_ascii : List (ℕ × ℕ)
unfolding ascii_to_ebcdic
ebcdic_to_ascii = map swap ascii_to_ebcdic

pub data EbcdicError : Type 0 where
  not_valid : ℕ → EbcdicError
  longer_than : ℕ → EbcdicError

-- EncodeEBCDIC
unfoldable pub encode_ebcdic : Bytes → Result EbcdicError Bytes
unfolding lookup
encode_ebcdic [] = ok []
encode_ebcdic (c ∷ s) =
    let rest = encode_ebcdic s in
    elim (lookup ascii_to_ebcdic c) [
      | none ↦ err (not_valid c)
      | some e ↦ rest >>= λ out. ok (e ∷ out)
    ]

-- EncodeEBCDICPadded: n blanks, over which the code is copied.
unfoldable pub encode_ebcdic_padded : Bytes → ℕ → Result EbcdicError Bytes
unfolding encode_ebcdic
encode_ebcdic_padded s n =
    if ltb n (length s)
    then err (longer_than n)
    else do enc ← encode_ebcdic s; ok (enc ++ replicate (n - length enc) 0x40)

-- EncodeEBCDIC10
unfoldable pub encode_ebcdic10 : Bytes → Result EbcdicError Bytes
unfolding encode_ebcdic_padded
encode_ebcdic10 s = encode_ebcdic_padded s 10

-- DecodeEBCDICLossy, and DecodeEBCDIC10 on ten bytes.
unfoldable pub decode_ebcdic_lossy : Bytes → Bytes
unfolding lookup
decode_ebcdic_lossy [] = []
decode_ebcdic_lossy (e ∷ b) =
    (elim (lookup ebcdic_to_ascii e) [ some a ↦ a | none ↦ b'?' ]) ∷ decode_ebcdic_lossy b

-- strings.TrimRight(auth.DecodeEBCDICLossy(b), " ")
unfoldable pub decode_trimmed : Bytes → Bytes
unfolding trim_right decode_ebcdic_lossy
decode_trimmed b = trim_right (λ c. c == b' ') (decode_ebcdic_lossy b)
