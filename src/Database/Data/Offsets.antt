-- ===== src/Database/Data/Offsets.antt =====
-- Offsets into a block that do not wrap, and ends that lie behind the block.
use jt400_go.Prelude.{
  ℕ, ◌+◌, ◌-◌, ◌≤◌, ◌<◌, ◌^◌, ◌%◌, ◌≡◌, refl, inl, inr, Bool-cases, ltb, arith, length,
}
use jt400_go.Prelude.Int.{ℤ, pos, negsuc}
use jt400_go.Go.{ok, panic, Bytes, slice, uint16}
use jt400_go.Database.Format.{FormatError}
use jt400_go.Database.Data.{int_of, slice_between, word_between}

pub int_of-small : (n : ℕ) → n < 2 ^ 63 → int_of n ≡ pos n
int_of-small n h = ground arith

pub slice_between-small :
    (b : Bytes) (i j : ℕ) → i ≤ j → j < 2 ^ 63 → slice_between b (int_of i) (int_of j) ≡ slice b i j
unfolding slice_between
slice_between-small b i j h k = rw (int_of-small i (omega arith), int_of-small j k) refl

pub word_between-small : (b : Bytes) (i : ℕ) → i < 2 ^ 63 → word_between b (int_of i) ≡ uint16 b i
unfolding word_between
word_between-small b i h = rw (int_of-small i h) refl

pub uint16-room : (b : Bytes) (i w : ℕ) → uint16 {E = FormatError} b i ≡ ok w → i + 2 ≤ length b
unfolding uint16
uint16-room b i w h = ground (arith, h)

slice_between-behind :
    (b : Bytes) (i : ℤ) (j : ℕ) → length b < j → slice_between b i (pos j) ≡ panic
unfolding slice_between slice
slice_between-behind b (pos i) j h = ground arith
slice_between-behind b (negsuc i) j h = refl

slice_between-negative : (b : Bytes) (i : ℤ) (j : ℕ) → slice_between b i (negsuc j) ≡ panic
unfolding slice_between
slice_between-negative b (pos i) j = refl
slice_between-negative b (negsuc i) j = refl

-- An end behind the block panics, also if the int that holds it is negative.
pub slice_between-past :
    (b : Bytes) (i : ℤ) (n : ℕ) → length b < n → n < 2 ^ 64 → slice_between b i (int_of n) ≡ panic
slice_between-past b i n h k = elim (Bool-cases (ltb n (2 ^ 63))) [
  | inl small ↦ rw (int_of-small n (ground arith)) (slice_between-behind b i n h)
  | inr large ↦
      let same : n % 2 ^ 64 ≡ n = omega arith in
      rw (same, large) (slice_between-negative b i (2 ^ 64 - n - 1))
]
