-- ===== src/Go/Numbers.antt =====
-- What the code uses of package strconv: FormatInt and ParseInt in base 10 and 64 bits.
use jt400_go.Prelude.{
  ℕ, zero, suc, ◌+◌, ◌-◌, ◌*◌, ◌/◌, ◌%◌, ◌^◌, ◌≤◌, ◌<◌, ◌≡◌, sym, ap, ◌∙◌, inl, inr, Bool, true,
  false, ◌&&◌, Option, none, some, [], ◌∷◌, arith, ltb, leb, ◌==◌, if◌then◌else◌, Bool-cases,
}
use jt400_go.Prelude.Int.{ℤ, pos, negsuc}
use jt400_go.Go.{Bytes}

-- The digits of n in front of `rest`. A round divides by ten, so n + 1 rounds are enough.
unfoldable pub digits_loop : ℕ → ℕ → Bytes → Bytes
digits_loop zero n rest = rest
digits_loop (suc fuel) n rest =
    let front = (b'0' + n % 10) ∷ rest in
    let more = digits_loop fuel (n / 10) front in if ltb n 10 then front else more

unfoldable pub format_nat : ℕ → Bytes
unfolding digits_loop
format_nat n = digits_loop (n + 1) n []

-- strconv.FormatInt(n, 10)
unfoldable pub format_int : ℤ → Bytes
unfolding format_nat
format_int (pos n) = format_nat n
format_int (negsuc n) = b'-' ∷ format_nat (n + 1)

unfoldable pub parse_digits : Bytes → ℕ → Option ℕ
parse_digits [] n = some n
parse_digits (c ∷ s) n =
    let more = parse_digits s (n * 10 + (c - b'0')) in
    if leb b'0' c && leb c b'9' then more else none

-- A text of digits, at least one.
unfoldable pub parse_nat : Bytes → Option ℕ
unfolding parse_digits
parse_nat [] = none
parse_nat (c ∷ s) = parse_digits (c ∷ s) 0

-- The value of a text after its sign, if it is in the range of an int64.
unfoldable pub in_range : Bool → Option ℕ → Option ℤ
in_range negative none = none
in_range true (some n) =
    if n == 0 then some (pos 0) else if leb n (2 ^ 63) then some (negsuc (n - 1)) else none
in_range false (some n) = if ltb n (2 ^ 63) then some (pos n) else none

-- strconv.ParseInt(s, 10, 64)
unfoldable pub parse_int : Bytes → Option ℤ
unfolding parse_nat in_range
parse_int [] = none
parse_int (c ∷ s) =
    if c == b'-'
    then in_range true (parse_nat s)
    else if c == b'+'
    then in_range false (parse_nat s)
    else in_range false (parse_nat (c ∷ s))

digit_parsed :
    (d m : ℕ) (rest : Bytes)
    → d < 10
    → parse_digits ((b'0' + d) ∷ rest) m ≡ parse_digits rest (m * 10 + d)
unfolding parse_digits
digit_parsed d m rest h = ground arith

digits_loop_parsed :
    (fuel n : ℕ) (rest : Bytes)
    → n < fuel
    → parse_digits (digits_loop fuel n rest) 0 ≡ parse_digits rest n
unfolding digits_loop
digits_loop_parsed zero n rest h = absurd (omega arith)
digits_loop_parsed (suc fuel) n rest h =
    let step : (m : ℕ)
        → m * 10 + n % 10 ≡ n
        → parse_digits ((b'0' + n % 10) ∷ rest) m ≡ parse_digits rest n =
      λ m e. digit_parsed (n % 10) m rest (omega arith) ∙ ap (parse_digits rest) e in
    elim (Bool-cases (ltb n 10)) [
      | inl last ↦ rw last (step 0 (ground arith))
      | inr more ↦ rw more (
          digits_loop_parsed fuel (n / 10) ((b'0' + n % 10) ∷ rest) (ground arith)
          ∙ step (n / 10) (omega arith))
    ]

-- The text begins with a digit.
digits_loop_front :
    (fuel n : ℕ) (rest : Bytes)
    → n < fuel
    → (c : ℕ) × (s : Bytes) × (digits_loop fuel n rest ≡ c ∷ s) × (b'0' ≤ c) × (c ≤ b'9')
unfolding digits_loop
digits_loop_front zero n rest h = absurd (omega arith)
digits_loop_front (suc fuel) n rest h = elim (Bool-cases (ltb n 10)) [
  | inl last ↦ (b'0' + n % 10, rest, rw last, omega arith, omega arith)
  | inr more ↦
      let (c, s, e, low, high) =
        digits_loop_front fuel (n / 10) ((b'0' + n % 10) ∷ rest) (ground arith) in
      (c, s, rw more e, low, high)
]

parse_nat-format_nat : (n : ℕ) → parse_nat (format_nat n) ≡ some n
unfolding parse_nat format_nat
parse_nat-format_nat n =
    let (c, s, e, low, high) = digits_loop_front (n + 1) n [] (omega arith) in
    rw e (sym (ap (λ t. parse_digits t 0) e) ∙ digits_loop_parsed (n + 1) n [] (omega arith))

parse_int_unsigned :
    (c : ℕ) (s : Bytes) → b'0' ≤ c → parse_int (c ∷ s) ≡ in_range false (parse_nat (c ∷ s))
unfolding parse_int
parse_int_unsigned c s low = ground arith

-- The integers of 64 bits.
abbrev pub IsInt64 : ℤ → Type 0
IsInt64 (pos n) = n < 2 ^ 63
IsInt64 (negsuc n) = n < 2 ^ 63

-- ParseInt reads back what FormatInt printed, for every int64.
pub parse_int-format_int : (n : ℤ) → IsInt64 n → parse_int (format_int n) ≡ some n
unfolding format_int
parse_int-format_int (pos n) h =
    let (c, s, e, low, high) = digits_loop_front (n + 1) n [] (omega arith) in
    ap parse_int (front e)
    ∙ parse_int_unsigned c s low
    ∙ ap (in_range false) (sym (ap parse_nat (front e)) ∙ parse_nat-format_nat n)
    ∙ kept
  where
    front : {c : ℕ} {s : Bytes} → digits_loop (n + 1) n [] ≡ c ∷ s → format_nat n ≡ c ∷ s
    front e = unfold format_nat in e

    kept : in_range false (some n) ≡ some (pos n)
    kept = unfold in_range in ground arith
parse_int-format_int (negsuc n) h =
    unfold parse_int in ap (in_range true) (parse_nat-format_nat (n + 1)) ∙ kept
  where
    kept : in_range true (some (n + 1)) ≡ some (negsuc n)
    kept = unfold in_range in ground arith
