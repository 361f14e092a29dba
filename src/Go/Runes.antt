-- ===== src/Go/Runes.antt =====
-- []rune(s) and string(runes): the UTF-8 of Go's texts.
use jt400_go.Prelude.{
  ℕ, zero, suc, ◌+◌, ◌*◌, ◌/◌, ◌%◌, Bool, ◌&&◌, ◌||◌, List, [], ◌∷◌, ◌++◌, ltb, leb, ◌==◌,
  if◌then◌else◌, get_or,
}
use jt400_go.Go.{Bytes}

abbrev within : ℕ → ℕ → ℕ → Bool
within lo hi b = leb lo b && leb b hi

abbrev continues : ℕ → Bool
continues = within 0x80 0xBF

-- The second byte of a sequence of three, and of four, whose first byte is b0: no overlong coding, no
-- surrogate, nothing past U+10FFFF.
abbrev second_of_three : ℕ → ℕ → Bool
second_of_three b0 =
    if b0 == 0xE0 then within 0xA0 0xBF else if b0 == 0xED then within 0x80 0x9F else continues

abbrev second_of_four : ℕ → ℕ → Bool
second_of_four b0 =
    if b0 == 0xF0 then within 0x90 0xBF else if b0 == 0xF4 then within 0x80 0x8F else continues

-- The rune at the front of a text that starts with b0, and its bytes beyond b0; U+FFFD and none for
-- bytes that code no rune.
unfoldable pub first_rune : ℕ → Bytes → ℕ × ℕ
first_rune b0 rest =
    let b1 = get_or rest 0 0 in
    let b2 = get_or rest 1 0 in
    let b3 = get_or rest 2 0 in
    if ltb b0 0x80
    then (b0, 0)
    else if within 0xC2 0xDF b0 && continues b1
    then (b0 % 32 * 64 + b1 % 64, 1)
    else if within 0xE0 0xEF b0 && (second_of_three b0 b1 && continues b2)
    then (b0 % 16 * 4096 + b1 % 64 * 64 + b2 % 64, 2)
    else if within 0xF0 0xF4 b0 && (second_of_four b0 b1 && (continues b2 && continues b3))
    then (b0 % 8 * 262144 + b1 % 64 * 4096 + b2 % 64 * 64 + b3 % 64, 3)
    else (0xFFFD, 0)

-- The runes of what follows the next n bytes.
unfoldable pub runes_after : ℕ → Bytes → List ℕ
unfolding first_rune
runes_after n [] = []
runes_after (suc n) (b ∷ rest) = runes_after n rest
runes_after zero (b ∷ rest) = let (r, n) = first_rune b rest in r ∷ runes_after n rest

abbrev pub runes : Bytes → List ℕ
runes = runes_after 0

-- utf8.AppendRune: a surrogate and a number past U+10FFFF are coded as U+FFFD.
unfoldable pub rune_bytes : ℕ → Bytes
rune_bytes r =
    if ltb r 0x80
    then r ∷ []
    else if ltb r 0x800
    then (0xC0 + r / 64) ∷ (0x80 + r % 64) ∷ []
    else if within 0xD800 0xDFFF r || ltb 0x10FFFF r
    then 0xEF ∷ 0xBF ∷ 0xBD ∷ []
    else if ltb r 0x10000
    then (0xE0 + r / 4096) ∷ (0x80 + r / 64 % 64) ∷ (0x80 + r % 64) ∷ []
    else (0xF0 + r / 262144) ∷ (0x80 + r / 4096 % 64) ∷ (0x80 + r / 64 % 64) ∷ (0x80 + r % 64) ∷ []

unfoldable pub text_of : List ℕ → Bytes
unfolding rune_bytes
text_of [] = []
text_of (r ∷ rs) = rune_bytes r ++ text_of rs
