-- ===== src/Database/Decimal/Text.antt =====
-- Decimal texts: scaleToDigits reads back what formatDecimal prints, and never loses a digit.
use jt400_go.Prelude.{
  ℕ, zero, suc, ◌+◌, ◌-◌, ◌≤◌, ◌≡◌, refl, sym, ap, ◌∙◌, ◌≢◌, ◌⊎◌, inl, inr, Bool, true, false, not,
  ◌&&◌, ◌||◌, List, [], ◌∷◌, ◌++◌, append-nil, append_assoc, arith, leb, ◌==◌, if◌then◌else◌,
  Bool-cases, length, take, drop, replicate, length-take, length-drop,
}
use jt400_go.Go.{ok, Bytes}
use jt400_go.Go.Strings.{all_are, is_nil, trim_left, trim, trim-is_nil}
use jt400_go.Database.Decimal.{
  is_digit, is_zero_digit, scale_unsigned, scale_digits, format_decimal, split_sign, fit_fraction,
  scale_to_digits,
}
use jt400_go.Database.Decimal.Digits.{
  AreDigits, all_are-append, all_are-take, all_are-drop, all_are-trim_left, length-trim_left-le,
  zeros-trim_left, trim_left_twice, cut_digits, cut_point,
}
use jt400_go.Prelude.{take-append-drop}

-- The digits of an integer part J and a fraction F, as printed.
abbrev printed_int : Bytes → Bytes
printed_int j = if is_nil j then b'0' ∷ [] else j

printed_int-AreDigits : (j : Bytes) → AreDigits j → AreDigits (printed_int j)
unfolding all_are
printed_int-AreDigits [] h = refl
printed_int-AreDigits (c ∷ j) h = h

-- What scaleToDigits makes of an unsigned integer part and a fraction that has the scale's length.
read_parts :
    (negative : Bool) (s int frac : Bytes) (precision scale : ℕ)
    → split_sign s ≡ (negative, int ++ (if is_nil frac then [] else b'.' ∷ frac))
    → AreDigits int
    → AreDigits frac
    → int ≢ []
    → length frac ≡ scale
    → scale + length (trim_left is_zero_digit int) ≤ precision
    → scale_to_digits s precision scale
      ≡ ok (
        replicate (precision - scale - length (trim_left is_zero_digit int)) b'0'
            ++ (trim_left is_zero_digit int ++ frac),
        negative
            && not (
                is_nil (
                  trim is_zero_digit (
                    replicate (precision - scale - length (trim_left is_zero_digit int)) b'0'
                    ++ (trim_left is_zero_digit int ++ frac)))),
      )
unfolding scale_to_digits fit_fraction
read_parts negative s [] frac precision scale e hi hf ne len fits = absurd (ne refl)
read_parts negative s (c ∷ int) [] precision zero e hi hf ne len fits =
    rw (e, append-nil, cut_digits (c ∷ int) hi) (ground arith)
read_parts negative s (c ∷ int) [] precision (suc scale) e hi hf ne len fits = absurd (omega arith)
read_parts negative s (c ∷ int) (f ∷ frac) precision zero e hi hf ne len fits = absurd (omega arith)
read_parts negative s (c ∷ int) (f ∷ frac) precision (suc scale) e hi hf ne len fits =
    rw (e, cut_point (c ∷ int) (f ∷ frac) hi) (ground (arith, append-nil (f ∷ frac)))

-- The integer part without leading zeros, and the fraction.
abbrev int_of : Bytes → ℕ → Bytes
int_of ds scale = trim_left is_zero_digit (take (length ds - scale) ds)

abbrev frac_of : Bytes → ℕ → Bytes
frac_of ds scale = drop (length ds - scale) ds

abbrev printed : Bytes → ℕ → Bytes
printed ds scale =
    printed_int (int_of ds scale)
    ++ (if is_nil (frac_of ds scale) then [] else b'.' ∷ frac_of ds scale)

drop_all {ℓ} : {A : Type ℓ} (xs : List A) → drop (length xs) xs ≡ []
drop_all [] = refl
drop_all (x ∷ xs) = drop_all xs

is_nil-length {ℓ} : {A : Type ℓ} (xs : List A) → is_nil xs ≡ (length xs == 0)
is_nil-length [] = refl
is_nil-length (x ∷ xs) = ground arith

scale_unsigned-printed :
    (ds : Bytes) (scale : ℕ) → scale ≤ length ds → scale_unsigned ds scale ≡ printed ds scale
unfolding scale_unsigned
scale_unsigned-printed [] zero h = unfold trim_left in refl
scale_unsigned-printed (d ∷ ds) zero h =
    let none_more : 0 + 1 - suc (length ds) ≡ 0 = omega arith in
    let whole : suc (length ds) - 0 ≡ suc (length ds) = omega arith in
    rw (none_more, whole) (rw (drop_all ds) (rw append-nil))
scale_unsigned-printed ds (suc scale) h = elim (Bool-cases (leb (scale + 2) (length ds))) [
  | inl long ↦
      let none_more : suc scale + 1 - length ds ≡ 0 = ground arith in
      rw none_more (
        ground
          (arith, is_nil-length (frac_of ds (suc scale)), length-drop (length ds - suc scale) ds))
  | inr short ↦
      let one_more : suc scale + 1 - length ds ≡ 1 = ground arith in
      let none_left : length ds - suc scale ≡ 0 = ground arith in
      let one_left : suc (length ds) - suc scale ≡ 1 = ground arith in
      rw (one_more, none_left) (rw one_left (unfold trim_left in ground (arith, is_nil-length ds)))
]

abbrev zero_or_point : ℕ → Bool
zero_or_point c = c == b'0' || c == b'.'

zero_or_point-digits :
    (ds : Bytes) → AreDigits ds → all_are zero_or_point ds ≡ all_are is_zero_digit ds
unfolding all_are
zero_or_point-digits [] h = refl
zero_or_point-digits (d ∷ ds) h = ground (arith, zero_or_point-digits ds)

all_zero-trim_left :
    (ds : Bytes) → all_are is_zero_digit (trim_left is_zero_digit ds) ≡ all_are is_zero_digit ds
unfolding all_are trim_left
all_zero-trim_left [] = refl
all_zero-trim_left (d ∷ ds) = ground (arith, all_zero-trim_left ds)

all_zero-printed_int : (j : Bytes) → all_are is_zero_digit (printed_int j) ≡ all_are is_zero_digit j
unfolding all_are
all_zero-printed_int [] = refl
all_zero-printed_int (c ∷ j) = refl

all_zero-point :
    (frac : Bytes)
    → AreDigits frac
    → all_are zero_or_point (if is_nil frac then [] else b'.' ∷ frac) ≡ all_are is_zero_digit frac
unfolding all_are
all_zero-point [] h = refl
all_zero-point (c ∷ frac) h = zero_or_point-digits (c ∷ frac) h

module _ (ds : Bytes) (scale : ℕ) (digits : AreDigits ds) where
  int_digits : AreDigits (int_of ds scale)
  int_digits =
      all_are-trim_left is_digit is_zero_digit (take (length ds - scale) ds)
        (all_are-take is_digit (length ds - scale) ds digits)

  frac_digits : AreDigits (frac_of ds scale)
  frac_digits = all_are-drop is_digit (length ds - scale) ds digits

  all_zero-split :
      all_are is_zero_digit ds
      ≡ all_are is_zero_digit (take (length ds - scale) ds)
        && all_are is_zero_digit (frac_of ds scale)
  all_zero-split =
      sym (ap (all_are is_zero_digit) (take-append-drop (length ds - scale) ds))
      ∙ all_are-append is_zero_digit (take (length ds - scale) ds) (frac_of ds scale)

  -- The printed text is all zeros and points exactly when the digits are zeros.
  all_zero-printed : all_are zero_or_point (printed ds scale) ≡ all_are is_zero_digit ds
  all_zero-printed = ground (
    arith,
    all_are-append zero_or_point (printed_int (int_of ds scale))
        (if is_nil (frac_of ds scale) then [] else b'.' ∷ frac_of ds scale),
    zero_or_point-digits (printed_int (int_of ds scale))
        (printed_int-AreDigits (int_of ds scale) int_digits),
    all_zero-printed_int (int_of ds scale),
    all_zero-trim_left (take (length ds - scale) ds),
    all_zero-point (frac_of ds scale) frac_digits,
    all_zero-split,
  )

  -- Filling up the stripped integer part gives the digits back.
  refill :
      scale ≤ length ds
      → replicate (length ds - scale - length (int_of ds scale)) b'0'
          ++ (int_of ds scale ++ frac_of ds scale)
        ≡ ds
  refill h =
      let int_length : length (take (length ds - scale) ds) ≡ length ds - scale =
        omega (arith, length-take (length ds - scale) ds) in
      sym (
        append_assoc (replicate (length ds - scale - length (int_of ds scale)) b'0')
          (int_of ds scale) (frac_of ds scale))
      ∙ ap (λ (xs : Bytes). xs ++ frac_of ds scale)
          (rw int_length at (zeros-trim_left (take (length ds - scale) ds)))
      ∙ take-append-drop (length ds - scale) ds

printed_int-ne-nil : (j : Bytes) → printed_int j ≢ []
printed_int-ne-nil [] e = cc
printed_int-ne-nil (c ∷ j) e = cc

-- A printed number begins with a digit.
first_digit :
    (int rest : Bytes)
    → AreDigits int
    → int ≢ []
    → (split_sign (int ++ rest) ≡ (false, int ++ rest))
      × (split_sign (b'-' ∷ (int ++ rest)) ≡ (true, int ++ rest))
unfolding split_sign all_are
first_digit [] rest h ne = absurd (ne refl)
first_digit (c ∷ int) rest h ne = ground arith

scale_digits-digits :
    (ds : Bytes) (scale : ℕ) → AreDigits ds → scale_digits ds scale ≡ scale_unsigned ds scale
unfolding scale_digits all_are
scale_digits-digits [] scale h = refl
scale_digits-digits (c ∷ ds) scale h = ground arith

format_decimal-printed :
    (ds : Bytes) (scale : ℕ) (negative : Bool)
    → AreDigits ds
    → scale ≤ length ds
    → format_decimal ds scale negative ≡ (
        if negative && not (all_are is_zero_digit ds)
        then b'-' ∷ printed ds scale
        else printed ds scale)
unfolding format_decimal
format_decimal-printed ds scale negative h fits =
    rw (scale_digits-digits ds scale h, scale_unsigned-printed ds scale fits)
      (rw (trim-is_nil zero_or_point (printed ds scale)) (rw (all_zero-printed ds scale h)))

module _ (ds : Bytes) (scale : ℕ) (digits : AreDigits ds) (fits : scale ≤ length ds) where
  read_printed :
      (negative : Bool) (s : Bytes)
      → split_sign s ≡ (negative, printed ds scale)
      → scale_to_digits s (length ds) scale ≡ ok (ds, negative && not (all_are is_zero_digit ds))
  read_printed negative s e =
      let j = int_of ds scale in
      let stripped : trim_left is_zero_digit (printed_int j) ≡ j =
        trim_left_twice (take (length ds - scale) ds) in
      let short : length j ≤ length ds - scale = omega (
        arith,
        length-trim_left-le is_zero_digit (take (length ds - scale) ds),
        length-take (length ds - scale) ds,
      ) in
      read_parts negative s (printed_int j) (frac_of ds scale) (length ds) scale e
        (printed_int-AreDigits j (int_digits ds scale digits)) (frac_digits ds scale digits)
        (printed_int-ne-nil j) (omega (arith, length-drop (length ds - scale) ds))
        (rw stripped (omega arith))
      ∙ rw (stripped, refill ds scale digits fits) (rw (trim-is_nil is_zero_digit ds))

  -- Printing a decimal and reading it back: for every text of digits, as long as the precision, and
  -- every scale within it, scaleToDigits gives the digits again, with the sign unless all are zero.
  pub scale_to_digits-format_decimal :
      (negative : Bool)
      → scale_to_digits (format_decimal ds scale negative) (length ds) scale
        ≡ ok (ds, negative && not (all_are is_zero_digit ds))
  scale_to_digits-format_decimal negative =
      rw (format_decimal-printed ds scale negative digits fits)
        (signed negative (Bool-cases (all_are is_zero_digit ds)))
    where
      plain : split_sign (printed ds scale) ≡ (false, printed ds scale)
      plain =
          (first_digit (printed_int (int_of ds scale)) _
            (printed_int-AreDigits (int_of ds scale) (int_digits ds scale digits))
            (printed_int-ne-nil (int_of ds scale))).0

      minus : split_sign (b'-' ∷ printed ds scale) ≡ (true, printed ds scale)
      minus =
          (first_digit (printed_int (int_of ds scale)) _
            (printed_int-AreDigits (int_of ds scale) (int_digits ds scale digits))
            (printed_int-ne-nil (int_of ds scale))).1

      signed :
          (negative : Bool)
          → (all_are is_zero_digit ds ≡ true) ⊎ (all_are is_zero_digit ds ≡ false)
          → scale_to_digits
              (if negative && not (all_are is_zero_digit ds)
                then b'-' ∷ printed ds scale
                else printed ds scale)
              (length ds)
              scale
            ≡ ok (ds, negative && not (all_are is_zero_digit ds))
      signed true (inl z) = rw z (read_printed false (printed ds scale) plain)
      signed true (inr z) = rw z (rw z at (read_printed true (b'-' ∷ printed ds scale) minus))
      signed false z = read_printed false (printed ds scale) plain
