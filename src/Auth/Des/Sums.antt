-- ===== src/Auth/Des/Sums.antt =====
-- addArray8 xs the addition of 64-bit numbers.
use jt400_go.Prelude.{
  ℕ, ◌+◌, ◌*◌, ◌%◌, ◌/◌, ◌^◌, ◌<◌, ◌≤◌, ◌≡◌, refl, sym, ap, ◌∙◌, [], ◌∷◌, length, All, arith,
}
use jt400_go.Go.{Bytes, IsByte}
use jt400_go.Auth.Des.{add_loop, add_array8}
use native.Mathlib.Nat.{mul_assoc, add-mul, pow-succ', mul-le-mul_right}

-- The number that the bytes stand for, the first byte the highest.
abbrev pub number : Bytes → ℕ
number [] = 0
number (b ∷ ys) = b * 256 ^ length ys + number ys

add_loop-length : (xs ys : Bytes) → length xs ≡ length ys → length (add_loop xs ys).1 ≡ length xs
unfolding add_loop
add_loop-length [] [] h = refl
add_loop-length [] (b ∷ ys) h = refl
add_loop-length (a ∷ xs) [] h = cc
add_loop-length (a ∷ xs) (b ∷ ys) h = ground (arith, add_loop-length xs ys)

-- One place of the sum.
place : (m s : ℕ) → s / 256 * (256 * m) + s % 256 * m ≡ s * m
place m s =
    ap (λ t. t + s % 256 * m) (sym (mul_assoc (s / 256) 256 m))
    ∙ (sym (add-mul (s / 256 * 256) (s % 256) m) ∙ ap (λ t. t * m) whole)
  where
    whole : s / 256 * 256 + s % 256 ≡ s
    whole = omega arith

-- The bytes put out, and the carry above them, are the sum.
add_loop-number :
    (xs ys : Bytes)
    → length xs ≡ length ys
    → (add_loop xs ys).0 * 256 ^ length xs + number (add_loop xs ys).1 ≡ number xs + number ys
unfolding add_loop
add_loop-number [] [] h = refl
add_loop-number [] (b ∷ ys) h = cc
add_loop-number (a ∷ xs) [] h = cc
add_loop-number (a ∷ xs) (b ∷ ys) h =
    let n = length xs in
    let c = (add_loop xs ys).0 in
    let same : length ys ≡ n = ground arith in
    rw (pow-succ' 256 n, add_loop-length xs ys (sym same), same) omega
      (
        arith,
        place (256 ^ n) (a + b + c),
        add-mul (a + b) c (256 ^ n),
        add-mul a b (256 ^ n),
        add_loop-number xs ys (sym same),
      )

add_loop-bytes : (xs ys : Bytes) → All IsByte (add_loop xs ys).1
unfolding add_loop
add_loop-bytes [] ys = tt
add_loop-bytes (a ∷ xs) [] = tt
add_loop-bytes (a ∷ xs) (b ∷ ys) = (omega arith, add_loop-bytes xs ys)

number-lt : (b : Bytes) → All IsByte b → number b < 256 ^ length b
number-lt [] h = omega arith
number-lt (x ∷ b) h =
    let byte : x + 1 ≤ 256 = omega (arith, h.0) in
    let above = mul-le-mul_right {m = x + 1} {n = 256} (256 ^ length b) byte in
    rw (pow-succ' 256 (length b)) omega
      (arith, above, add-mul x 1 (256 ^ length b), number-lt b h.1)

-- addArray8 on two arrays of eight bytes is the addition of the big-endian numbers in them, modulo
-- 2^64.
pub add_array8-number :
    (a b : Bytes)
    → length a ≡ 8
    → length b ≡ 8
    → number (add_array8 a b) ≡ (number a + number b) % 2 ^ 64
unfolding add_array8
add_array8-number a b h k =
    let out = (add_loop a b).1 in
    let size : length out ≡ 8 = add_loop-length a b (h ∙ sym k) ∙ h in
    let sum = rw h at (add_loop-number a b (h ∙ sym k)) in
    let bound : number out < 256 ^ 8 = rw size at (number-lt out (add_loop-bytes a b)) in
    omega (arith, sum, bound)

pub add_array8-length : (a b : Bytes) → length a ≡ 8 → length b ≡ 8 → length (add_array8 a b) ≡ 8
unfolding add_array8
add_array8-length a b h k = add_loop-length a b (h ∙ sym k) ∙ h
