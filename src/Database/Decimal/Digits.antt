-- ===== src/Database/Decimal/Digits.antt =====
-- Texts of digits: leading zeros, cutting at the point, and scaleDigits on a leading zero.
use jt400_go.Prelude.{
  ℕ, zero, suc, ◌+◌, ◌-◌, ◌≤◌, ◌≡◌, refl, ap, inl, inr, Bool, true, ◌&&◌, [], ◌∷◌, ◌++◌, arith, leb,
  if◌then◌else◌, ==_iff, Bool-cases, length, take, drop, replicate,
}
use jt400_go.Go.{Bytes}
use jt400_go.Go.Strings.{all_are, is_nil, trim_left, cut}
use native.Mathlib.Nat.{sub_self}
use jt400_go.Database.Decimal.{
  is_digit, is_zero_digit, scale_unsigned, format_decimal, scale_digits,
}

abbrev pub AreDigits : Bytes → Type 0
AreDigits ds = all_are is_digit ds ≡ true

pub all_are-append :
    (p : ℕ → Bool) (xs ys : Bytes) → all_are p (xs ++ ys) ≡ all_are p xs && all_are p ys
unfolding all_are
all_are-append p [] ys = refl
all_are-append p (x ∷ xs) ys = ground (arith, all_are-append p xs ys)

pub all_are-take :
    (p : ℕ → Bool) (n : ℕ) (xs : Bytes) → all_are p xs ≡ true → all_are p (take n xs) ≡ true
unfolding all_are
all_are-take p zero xs h = refl
all_are-take p (suc n) [] h = refl
all_are-take p (suc n) (x ∷ xs) h = ground (arith, all_are-take p n xs)

pub all_are-drop :
    (p : ℕ → Bool) (n : ℕ) (xs : Bytes) → all_are p xs ≡ true → all_are p (drop n xs) ≡ true
unfolding all_are
all_are-drop p zero xs h = h
all_are-drop p (suc n) [] h = refl
all_are-drop p (suc n) (x ∷ xs) h = ground (arith, all_are-drop p n xs)

pub all_are-trim_left :
    (p q : ℕ → Bool) (xs : Bytes) → all_are p xs ≡ true → all_are p (trim_left q xs) ≡ true
unfolding all_are trim_left
all_are-trim_left p q [] h = refl
all_are-trim_left p q (x ∷ xs) h = ground (arith, all_are-trim_left p q xs)

pub AreDigits-zeros : (n : ℕ) → AreDigits (replicate n b'0')
unfolding all_are
AreDigits-zeros zero = refl
AreDigits-zeros (suc n) = AreDigits-zeros n

pub length-trim_left-le : (p : ℕ → Bool) (xs : Bytes) → length (trim_left p xs) ≤ length xs
unfolding trim_left
length-trim_left-le p [] = omega arith
length-trim_left-le p (x ∷ xs) = ground (arith, length-trim_left-le p xs)

zeros_more :
    (xs t : Bytes) (x : ℕ)
    → x ≡ b'0'
    → replicate (length xs - length t) b'0' ++ t ≡ xs
    → length t ≤ length xs
    → replicate (suc (length xs) - length t) b'0' ++ t ≡ x ∷ xs
zeros_more xs t x z e le =
    let one_more : suc (length xs) - length t ≡ suc (length xs - length t) = omega arith in
    rw one_more (cc (e, z))

-- Filling up with zeros restores the length that stripping them took.
pub zeros-trim_left :
    (xs : Bytes)
    → replicate (length xs - length (trim_left is_zero_digit xs)) b'0' ++ trim_left is_zero_digit xs
      ≡ xs
unfolding trim_left
zeros-trim_left [] = refl
zeros-trim_left (x ∷ xs) = elim (Bool-cases (is_zero_digit x)) [
  | inl zero_digit ↦ rw zero_digit (
      zeros_more xs (trim_left is_zero_digit xs) x ((==_iff x b'0').0 zero_digit)
        (zeros-trim_left xs) (length-trim_left-le is_zero_digit xs))
  | inr other ↦ rw other (rw (sub_self (suc (length xs))))
]

pub trim_left_twice :
    (xs : Bytes)
    → trim_left is_zero_digit
        (if is_nil (trim_left is_zero_digit xs) then b'0' ∷ [] else trim_left is_zero_digit xs)
      ≡ trim_left is_zero_digit xs
unfolding trim_left
trim_left_twice [] = refl
trim_left_twice (x ∷ xs) = ground (arith, trim_left_twice xs)

-- A text of digits has no point.
pub cut_digits : (ds : Bytes) → AreDigits ds → cut b'.' ds ≡ (ds, [])
unfolding cut all_are
cut_digits [] h = refl
cut_digits (d ∷ ds) h = ground (arith, cut_digits ds)

pub cut_point : (ds rest : Bytes) → AreDigits ds → cut b'.' (ds ++ (b'.' ∷ rest)) ≡ (ds, rest)
unfolding cut all_are
cut_point [] rest h = refl
cut_point (d ∷ ds) rest h = ground (arith, cut_point ds rest)

pub replicate-cons : (n a : ℕ) (xs : Bytes) → replicate n a ++ (a ∷ xs) ≡ a ∷ (replicate n a ++ xs)
replicate-cons zero a xs = refl
replicate-cons (suc n) a xs = ap (◌∷◌ a) (replicate-cons n a xs)

-- A leading zero changes nothing.
scale_unsigned-zero :
    (ds : Bytes) (scale : ℕ) → scale_unsigned (b'0' ∷ ds) scale ≡ scale_unsigned ds scale
unfolding scale_unsigned trim_left
scale_unsigned-zero ds scale = elim (Bool-cases (leb (scale + 1) (length ds))) [
  | inl long ↦
      let none_more : scale + 1 - suc (length ds) ≡ 0 = ground arith in
      let none_less : scale + 1 - length ds ≡ 0 = ground arith in
      let one_up : suc (length ds) - scale ≡ suc (length ds - scale) = ground arith in
      rw (none_more, none_less, one_up)
  | inr short ↦
      let one_less : scale + 1 - length ds ≡ suc (scale + 1 - suc (length ds)) = ground arith in
      rw (one_less, replicate-cons)
]

pub format_decimal-zero :
    (ds : Bytes) (scale : ℕ) (negative : Bool)
    → AreDigits ds
    → format_decimal (b'0' ∷ ds) scale negative ≡ format_decimal ds scale negative
unfolding format_decimal scale_digits all_are
format_decimal-zero [] scale negative h = rw (scale_unsigned-zero [] scale)
format_decimal-zero (d ∷ ds) scale negative h = ground (arith, scale_unsigned-zero (d ∷ ds) scale)
