-- ===== src/Database/Decimal/Packed.antt =====
-- Packed decimal: what encodePacked wrote decodePacked reads.
use jt400_go.Prelude.{
  ℕ, zero, suc, ◌+◌, ◌-◌, ◌*◌, ◌/◌, ◌%◌, ◌<◌, ◌≡◌, refl, ap, ◌∙◌, Bool, true, false, [], ◌∷◌, ◌++◌,
  map, arith, ◌==◌, if◌then◌else◌, length, get_or,
}
use jt400_go.Go.{ok, Bytes}
use jt400_go.Go.Fields.{byte_at_ok}
use jt400_go.Database.Decimal.Digits.{AreDigits, format_decimal-zero}
use jt400_go.Go.Strings.{all_are}
use jt400_go.Go.Tables.{all_below, all_below_sound}
use jt400_go.Database.Decimal.{
  encode_packed, decode_packed, format_decimal, DecimalError, packed_digits, digit_value,
  nibble_pair, pack_nibbles,
}

pair_table : all_below (λ x. nibble_pair (x / 16) (x % 16) == x) 256 ≡ true
unfolding all_below nibble_pair
pair_table = refl

nibble_pair_lem : (hi lo : ℕ) → hi < 16 → lo < 16 → nibble_pair hi lo ≡ hi * 16 + lo
nibble_pair_lem hi lo h k = ground (
  arith,
  λ (small : hi * 16 + lo < 256).
      all_below_sound (λ x. nibble_pair (x / 16) (x % 16) == x) 256 (hi * 16 + lo) small pair_table,
)

-- The field for an odd number of digits.
packed_form : Bytes → ℕ → Bytes
packed_form [] sign = []
packed_form (d ∷ []) sign = ((d - b'0') * 16 + sign) ∷ []
packed_form (d ∷ e ∷ rest) sign = ((d - b'0') * 16 + (e - b'0')) ∷ packed_form rest sign

pack_nibbles-packed_form :
    (n : ℕ) (ds : Bytes) (sign : ℕ)
    → sign < 16
    → length ds ≡ 2 * n + 1
    → AreDigits ds
    → pack_nibbles (suc n) (map digit_value ds ++ (sign ∷ [])) ≡ ok (packed_form ds sign)
unfolding pack_nibbles packed_form all_are
pack_nibbles-packed_form n [] sign hs hl hd = absurd (omega arith)
pack_nibbles-packed_form zero (d ∷ []) sign hs hl hd =
    ground (arith, nibble_pair_lem (digit_value d) sign)
pack_nibbles-packed_form (suc n) (d ∷ []) sign hs hl hd = absurd (omega arith)
pack_nibbles-packed_form zero (d ∷ e ∷ rest) sign hs hl hd = absurd (omega arith)
pack_nibbles-packed_form (suc n) (d ∷ e ∷ rest) sign hs hl hd =
    ground
      (arith, nibble_pair_lem (digit_value d) (digit_value e), pack_nibbles-packed_form n rest sign)

-- Decoding the field gives the digits and the sign back.
packed_form_read :
    (n : ℕ) (ds : Bytes) (sign : ℕ)
    → sign < 16
    → length ds ≡ 2 * n + 1
    → AreDigits ds
    → (packed_digits (packed_form ds sign) ≡ ok ds)
      × (length (packed_form ds sign) ≡ n + 1)
      × (get_or (packed_form ds sign) n 0 % 16 ≡ sign)
unfolding packed_digits packed_form all_are
packed_form_read n [] sign hs hl hd = absurd (omega arith)
packed_form_read zero (d ∷ []) sign hs hl hd = ground arith
packed_form_read (suc n) (d ∷ []) sign hs hl hd = absurd (omega arith)
packed_form_read zero (d ∷ e ∷ rest) sign hs hl hd = absurd (omega arith)
packed_form_read (suc n) (d ∷ e ∷ []) sign hs hl hd = absurd (omega arith)
packed_form_read (suc n) (d ∷ e ∷ f ∷ []) sign hs hl hd =
    ground (arith, packed_form_read n (f ∷ []) sign)
packed_form_read (suc n) (d ∷ e ∷ f ∷ g ∷ rest) sign hs hl hd =
    ground (arith, packed_form_read n (f ∷ g ∷ rest) sign)

odd_packed :
    (n : ℕ) (ds : Bytes) (negative : Bool) (precision scale : ℕ)
    → length ds ≡ 2 * n + 1
    → AreDigits ds
    → n ≡ precision / 2
    → decode_packed (packed_form ds (if negative then 0x0D else 0x0F)) precision scale
      ≡ ok (format_decimal ds scale negative)
unfolding decode_packed
odd_packed n ds true precision scale hl hd hp = ground (
  arith,
  packed_form_read n ds 0x0D (omega arith) hl hd,
  byte_at_ok {E = DecimalError} (packed_form ds 0x0D) n,
)
odd_packed n ds false precision scale hl hd hp = ground (
  arith,
  packed_form_read n ds 0x0F (omega arith) hl hd,
  byte_at_ok {E = DecimalError} (packed_form ds 0x0F) n,
)

-- The digits as encodePacked pads them to an odd count.
abbrev odd_digits : Bytes → Bytes
odd_digits ds = if length ds % 2 == 0 then b'0' ∷ ds else ds

odd_digits_facts :
    (ds : Bytes)
    → AreDigits ds
    → (length (odd_digits ds) ≡ 2 * (length ds / 2) + 1) × AreDigits (odd_digits ds)
unfolding all_are
odd_digits_facts ds h = ground arith

encode_packed_form :
    (ds : Bytes) (negative : Bool)
    → AreDigits ds
    → encode_packed (length ds / 2 + 1) ds negative
      ≡ ok (packed_form (odd_digits ds) (if negative then 0x0D else 0x0F))
unfolding encode_packed
encode_packed_form ds negative h =
    let (len, digits) = odd_digits_facts ds h in
    let sign : ℕ = if negative then 0x0D else 0x0F in
    let packed =
      pack_nibbles-packed_form (length ds / 2) (odd_digits ds) sign (ground arith) len digits in
    ground (arith, packed)

format_decimal-odd :
    (ds : Bytes) (scale : ℕ) (negative : Bool)
    → AreDigits ds
    → format_decimal (odd_digits ds) scale negative ≡ format_decimal ds scale negative
format_decimal-odd ds scale negative h = ground (arith, format_decimal-zero ds scale negative h)

-- For every text of digits and sign, encodePacked fills a field of precision/2 + 1 bytes, and
-- decodePacked reads that field as exactly the number with these digits, this scale and this sign.
pub decode_packed-encode_packed :
    (ds : Bytes) (negative : Bool) (scale : ℕ)
    → AreDigits ds
    → (out : Bytes) × (encode_packed (length ds / 2 + 1) ds negative ≡ ok out)
      × (length out ≡ length ds / 2 + 1)
      × (decode_packed out (length ds) scale ≡ ok (format_decimal ds scale negative))
decode_packed-encode_packed ds negative scale h =
    let (len, digits) = odd_digits_facts ds h in
    let sign : ℕ = if negative then 0x0D else 0x0F in
    let (r, out_len, s) =
      packed_form_read (length ds / 2) (odd_digits ds) sign (ground arith) len digits in
    (
      packed_form (odd_digits ds) sign,
      encode_packed_form ds negative h,
      out_len,
      odd_packed (length ds / 2) (odd_digits ds) negative (length ds) scale len digits refl
          ∙ ap ok (format_decimal-odd ds scale negative h),
    )
