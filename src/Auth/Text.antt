-- ===== src/Auth/Text.antt =====
-- as400/auth/password.go: UTF16BE, on the runes of a string (what []rune(s) gives).
use jt400_go.Prelude.{
  ℕ, ◌+◌, ◌-◌, ◌/◌, ◌%◌, ◌&&◌, ◌||◌, List, [], ◌∷◌, ◌++◌, ltb, leb, if◌then◌else◌,
}
use jt400_go.Go.{Bytes, be16}

-- utf16.Encode on one rune, and the units as big-endian bytes. A surrogate code point and a value
-- past U+10FFFF are encoded as U+FFFD.
unfoldable pub utf16_units : ℕ → List ℕ
utf16_units r =
    if ltb r 0xD800 || (leb 0xE000 r && ltb r 0x10000)
    then r ∷ []
    else if leb 0x10000 r && leb r 0x10FFFF
    then (0xD800 + (r - 0x10000) / 1024 % 1024) ∷ (0xDC00 + (r - 0x10000) % 1024) ∷ []
    else 0xFFFD ∷ []

unfoldable pub units_bytes : List ℕ → Bytes
units_bytes [] = []
units_bytes (u ∷ us) = be16 u ++ units_bytes us

-- UTF16BE
unfoldable pub utf16be : List ℕ → Bytes
unfolding utf16_units units_bytes
utf16be [] = []
utf16be (r ∷ rs) = units_bytes (utf16_units r) ++ utf16be rs
