-- ===== src/Database/Decimal.antt =====
-- database/value.go: exact decimals. Texts of digits, packed and zoned decimal fields.
-- A text is the list of its bytes, and a precision or scale a number (the wire gives 16 bits).
pub mod Digits
pub mod Text
pub mod Packed
pub mod Zoned
use jt400_go.Prelude.{
  ℕ, zero, suc, ◌+◌, ◌-◌, ◌*◌, ◌/◌, ◌%◌, bit_and, bit_or, Bool, true, false, not, ◌&&◌, ◌||◌, [],
  ◌∷◌, ◌++◌, map, ltb, leb, ◌==◌, if◌then◌else◌, length, take, drop, replicate,
}
use jt400_go.Go.{Result, ok, err, panic, ◌>>=◌, Bytes, byte_at}
use jt400_go.Go.Strings.{trim_left, trim, cut, is_nil, all_are}

pub data DecimalError : Type 0 where
  field_length : ℕ → ℕ → DecimalError
  invalid_packed_digit : ℕ → DecimalError
  invalid_zoned_digit : ℕ → DecimalError
  not_a_decimal : DecimalError
  too_many_fractional_digits : DecimalError
  does_not_fit : DecimalError

abbrev pub is_zero_digit : ℕ → Bool
is_zero_digit c = c == b'0'

-- scaleDigits
unfoldable pub scale_unsigned : Bytes → ℕ → Bytes
scale_unsigned digits scale =
    let padded = replicate (scale + 1 - length digits) b'0' ++ digits in
    let stripped = trim_left is_zero_digit (take (length padded - scale) padded) in
    let int_part = if is_nil stripped then b'0' ∷ [] else stripped in
    if scale == 0 then int_part else int_part ++ (b'.' ∷ drop (length padded - scale) padded)

unfoldable pub scale_digits : Bytes → ℕ → Bytes
unfolding scale_unsigned
scale_digits [] scale = scale_unsigned [] scale
scale_digits (c ∷ digits) scale =
    if c == b'-' then b'-' ∷ scale_unsigned digits scale else scale_unsigned (c ∷ digits) scale

-- formatDecimal
unfoldable pub format_decimal : Bytes → ℕ → Bool → Bytes
unfolding scale_digits
format_decimal digits scale negative =
    let s = scale_digits digits scale in
    if negative && not (is_nil (trim (λ c. c == b'0' || c == b'.') s)) then b'-' ∷ s else s

-- The digits of decodePacked's loop: the last byte gives only its high nibble.
unfoldable pub packed_digits : Bytes → Result DecimalError Bytes
packed_digits [] = ok []
packed_digits (c ∷ []) =
    if ltb 9 (c / 16) then err (invalid_packed_digit (c / 16)) else ok ((b'0' + c / 16) ∷ [])
packed_digits (c ∷ d ∷ rest) =
    let more = packed_digits (d ∷ rest) in
    if ltb 9 (c / 16)
    then err (invalid_packed_digit (c / 16))
    else if ltb 9 (c % 16)
    then err (invalid_packed_digit (c % 16))
    else (more >>= λ digits. ok ((b'0' + c / 16) ∷ (b'0' + c % 16) ∷ digits))

-- decodePacked
unfoldable pub decode_packed : Bytes → ℕ → ℕ → Result DecimalError Bytes
unfolding packed_digits format_decimal
decode_packed b precision scale =
    if not (length b == precision / 2 + 1)
    then err (field_length (length b) (precision / 2 + 1))
    else do
      digits ← packed_digits b
      last ← byte_at b (length b - 1)
      ok (format_decimal digits scale (last % 16 == 0x0B || last % 16 == 0x0D))

unfoldable pub zoned_digits : Bytes → Result DecimalError Bytes
zoned_digits [] = ok []
zoned_digits (c ∷ rest) =
    let more = zoned_digits rest in
    if ltb 9 (c % 16)
    then err (invalid_zoned_digit c)
    else (more >>= λ digits. ok ((b'0' + c % 16) ∷ digits))

-- decodeZoned. b[len(b)-1] panics for an empty field, as `byte_at` does at 0.
unfoldable pub decode_zoned : Bytes → ℕ → ℕ → Result DecimalError Bytes
unfolding zoned_digits format_decimal
decode_zoned b precision scale =
    if not (length b == precision) then err (field_length (length b) precision) else do
      digits ← zoned_digits b
      last ← byte_at b (length b - 1)
      ok (format_decimal digits scale (last / 16 == 0x0B || last / 16 == 0x0D))

abbrev pub is_digit : ℕ → Bool
is_digit c = leb b'0' c && leb c b'9'

-- The sign and the rest of scaleToDigits' argument.
unfoldable pub split_sign : Bytes → Bool × Bytes
split_sign [] = (false, [])
split_sign (c ∷ s) =
    if c == b'-' then (true, s) else if c == b'+' then (false, s) else (false, c ∷ s)

-- The fractional digits cut or filled up to the scale.
unfoldable pub fit_fraction : Bytes → ℕ → Result DecimalError Bytes
fit_fraction frac scale =
    if ltb scale (length frac)
    then (if not (is_nil (trim is_zero_digit (drop scale frac)))
        then err too_many_fractional_digits
        else ok (take scale frac))
    else ok (frac ++ replicate (scale - length frac) b'0')

-- scaleToDigits. `precision-scale` may be negative in Go; then no integer part fits.
unfoldable pub scale_to_digits : Bytes → ℕ → ℕ → Result DecimalError (Bytes × Bool)
unfolding split_sign fit_fraction
scale_to_digits s precision scale = do
  let (negative, unsigned_part) = split_sign s
  let (int_part, frac_part) = cut b'.' unsigned_part
  let result : Result DecimalError (Bytes × Bool) =
      if (is_nil int_part && is_nil frac_part)
        || not (all_are is_digit int_part && all_are is_digit frac_part)
      then err not_a_decimal
      else do
        frac ← fit_fraction frac_part scale
        let int = trim_left is_zero_digit int_part
        let fitted : Result DecimalError (Bytes × Bool) =
            if ltb precision (scale + length int)
            then err does_not_fit
            else let digits = replicate (precision - scale - length int) b'0' ++ (int ++ frac) in
              ok (digits, negative && not (is_nil (trim is_zero_digit digits)))
        fitted
  result

-- nibbles[2*i]<<4 | nibbles[2*i+1]
unfoldable pub nibble_pair : ℕ → ℕ → ℕ
nibble_pair hi lo = bit_or (hi * 16 % 256) lo

-- `for i := range out`: an index past the nibbles panics.
unfoldable pub pack_nibbles : ℕ → Bytes → Result DecimalError Bytes
unfolding nibble_pair
pack_nibbles zero nibbles = ok []
pack_nibbles (suc n) [] = panic
pack_nibbles (suc n) (hi ∷ []) = panic
pack_nibbles (suc n) (hi ∷ lo ∷ rest) = pack_nibbles n rest >>= λ out. ok (nibble_pair hi lo ∷ out)

-- digits[i]-'0' on bytes
abbrev pub digit_value : ℕ → ℕ
digit_value c = (c + 256 - b'0') % 256

-- encodePacked for a field of `out_length` bytes.
unfoldable pub encode_packed : ℕ → Bytes → Bool → Result DecimalError Bytes
unfolding pack_nibbles
encode_packed out_length digits negative =
    if not (out_length == length digits / 2 + 1)
    then err (field_length out_length (length digits))
    else let padded = if length digits % 2 == 0 then b'0' ∷ digits else digits in
      let sign : ℕ = if negative then 0x0D else 0x0F in
      pack_nibbles out_length (map digit_value padded ++ (sign ∷ []))

-- encodeZoned's bytes: zone 0xF, and the sign in the last byte's zone.
unfoldable pub zone_digits : Bytes → Bool → Bytes
zone_digits [] negative = []
zone_digits (c ∷ []) negative =
    let zoned = bit_or 0xF0 (digit_value c) in
    (if negative then bit_or 0xD0 (bit_and zoned 0x0F) else zoned) ∷ []
zone_digits (c ∷ d ∷ digits) negative =
    bit_or 0xF0 (digit_value c) ∷ zone_digits (d ∷ digits) negative

-- encodeZoned. out[len(out)-1] panics for a negative empty field.
unfoldable pub encode_zoned : ℕ → Bytes → Bool → Result DecimalError Bytes
unfolding zone_digits
encode_zoned out_length digits negative =
    if not (out_length == length digits)
    then err (field_length out_length (length digits))
    else if negative && is_nil digits
    then panic
    else ok (zone_digits digits negative)
