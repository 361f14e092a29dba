-- ===== src/Go.antt =====
-- What the Go code uses of its language and of encoding/binary: byte slices, big-endian fields,
-- and a call's outcome.
-- A byte slice is a list of numbers. `panic` is a run-time panic; a slice expression that leaves
-- the slice's length counts as one, also where Go would still find room in its capacity.
-- `stuck` is no Go value: it says that a loop's fuel ran out.
pub mod Strings
pub mod Tables
pub mod Fields
pub mod Outcome
pub mod Numbers
pub mod Hex
pub mod Maps
pub mod Runes
use jt400_go.Prelude.{
  ℕ, ◌+◌, ◌-◌, ◌*◌, ◌/◌, ◌%◌, ◌^◌, ◌<◌, Bool, true, false, ◌&&◌, List, [], ◌∷◌, ◌++◌, ◌≡◌, refl,
  leb, ltb, if◌then◌else◌, length, take, drop, get_or,
}
use jt400_go.Prelude.Int.{ℤ, pos, negsuc}

pub data Result {ℓ} (E : Type 0) (A : Type ℓ) : Type ℓ where
  ok : A → Result E A
  err : E → Result E A
  panic : Result E A
  stuck : Result E A

infixl 5 ◌>>=◌ ◌>>◌
abbrev pub ◌>>=◌ {ℓ κ} :
    {E : Type 0} {A : Type ℓ} {B : Type κ} → Result E A → (A → Result E B) → Result E B
ok a >>= f = f a
err e >>= f = err e
panic >>= f = panic
stuck >>= f = stuck

abbrev pub ◌>>◌ {ℓ} : {E : Type 0} {B : Type ℓ} → Result E (Unit {0}) → Result E B → Result E B
m >> k = m >>= λ _. k

-- `fmt.Errorf("...: %w", err)`: the error is wrapped, a value stays.
abbrev pub wrap {ℓ} : {E F : Type 0} {A : Type ℓ} → (E → F) → Result E A → Result F A
wrap f (ok a) = ok a
wrap f (err e) = err (f e)
wrap f panic = panic
wrap f stuck = stuck

-- The call comes back with a value or an error: no panic, and no endless loop.
abbrev pub returns {ℓ} : {E : Type 0} {A : Type ℓ} → Result E A → Bool
returns (ok a) = true
returns (err e) = true
returns panic = false
returns stuck = false

abbrev pub Bytes : Type 0
Bytes = List ℕ

abbrev pub IsByte : ℕ → Type 0
IsByte b = b < 256

-- b[i:j]
unfoldable pub slice : {E : Type 0} → Bytes → ℕ → ℕ → Result E Bytes
slice b i j = if leb i j && leb j (length b) then ok (take (j - i) (drop i b)) else panic

-- b[i]
unfoldable pub byte_at : {E : Type 0} → Bytes → ℕ → Result E ℕ
byte_at b i = if ltb i (length b) then ok (get_or b i 0) else panic

-- binary.BigEndian.Uint16(b[i:i+2]), Uint32(b[i:i+4]) and Uint64(b[i:i+8])
unfoldable pub be16_at : Bytes → ℕ → ℕ
be16_at b i = get_or b i 0 * 256 + get_or b (i + 1) 0

unfoldable pub be32_at : Bytes → ℕ → ℕ
be32_at b i =
    get_or b i 0 * 16777216
    + get_or b (i + 1) 0 * 65536
    + get_or b (i + 2) 0 * 256
    + get_or b (i + 3) 0

unfoldable pub be64_at : Bytes → ℕ → ℕ
unfolding be32_at
be64_at b i = be32_at b i * 2 ^ 32 + be32_at b (i + 4)

unfoldable pub uint16 : {E : Type 0} → Bytes → ℕ → Result E ℕ
uint16 b i = if leb (i + 2) (length b) then ok (be16_at b i) else panic

unfoldable pub uint32 : {E : Type 0} → Bytes → ℕ → Result E ℕ
uint32 b i = if leb (i + 4) (length b) then ok (be32_at b i) else panic

-- What binary.BigEndian.PutUint16, PutUint32 and PutUint64 write; a conversion to the field's
-- width keeps the low bits.
abbrev pub be16 : ℕ → Bytes
be16 v = (v / 256 % 256) ∷ (v % 256) ∷ []

abbrev pub be32 : ℕ → Bytes
be32 v = (v / 16777216 % 256) ∷ (v / 65536 % 256) ∷ (v / 256 % 256) ∷ (v % 256) ∷ []

abbrev pub be64 : ℕ → Bytes
be64 v = be32 (v / 2 ^ 32) ++ be32 v

-- int16(v), int32(v) and int64(v) of an unsigned word v
abbrev pub signed16 : ℕ → ℤ
signed16 v = if ltb v 32768 then pos v else negsuc (65536 - v - 1)

abbrev pub signed32 : ℕ → ℤ
signed32 v = if ltb v (2 ^ 31) then pos v else negsuc (2 ^ 32 - v - 1)

abbrev pub signed64 : ℕ → ℤ
signed64 v = if ltb v (2 ^ 63) then pos v else negsuc (2 ^ 64 - v - 1)

-- uint16(n), uint32(n) and uint64(n) of a signed integer n
abbrev pub unsigned : ℕ → ℤ → ℕ
unsigned m (pos n) = n % m
unsigned m (negsuc n) = m - 1 - n % m
