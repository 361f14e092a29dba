-- ===== src/Database/Decimal/Zoned.antt =====
-- Zoned decimal: what encodeZoned wrote decodeZoned reads, and the field that it panics on.
use jt400_go.Prelude.{
  ℕ, ◌+◌, ◌-◌, ◌/◌, ◌<◌, bit_and, bit_or, ◌≡◌, refl, ◌≢◌, ◌↔◌, Bool, true, false, ◌&&◌, [], ◌∷◌,
  arith, ◌==◌, if◌then◌else◌, length, get_or,
}
use jt400_go.Go.{ok, returns, Bytes, byte_at}
use jt400_go.Go.Fields.{byte_at_ok}
use jt400_go.Go.Strings.{all_are}
use jt400_go.Go.Tables.{all_below, all_below_sound}
use jt400_go.Database.Decimal.{
  DecimalError, zoned_digits, decode_zoned, format_decimal, zone_digits, encode_zoned,
}
use jt400_go.Database.Decimal.Digits.{AreDigits}

zone_table :
    all_below
      (λ d. bit_or 0xF0 d == 240 + d && (bit_or 0xD0 (bit_and (240 + d) 0x0F) == 208 + d))
      10
    ≡ true
unfolding all_below
zone_table = refl

zone :
    (d : ℕ) → d < 10 → (bit_or 0xF0 d ≡ 240 + d) × (bit_or 0xD0 (bit_and (240 + d) 0x0F) ≡ 208 + d)
zone d h = ground (
  arith,
  all_below_sound
      (λ d. bit_or 0xF0 d == 240 + d && (bit_or 0xD0 (bit_and (240 + d) 0x0F) == 208 + d)) 10 d h
      zone_table,
)

-- The field in plain arithmetic.
zoned_form : Bytes → Bool → Bytes
zoned_form [] negative = []
zoned_form (d ∷ []) negative = ((if negative then 208 else 240) + (d - b'0')) ∷ []
zoned_form (d ∷ e ∷ ds) negative = (240 + (d - b'0')) ∷ zoned_form (e ∷ ds) negative

zone_digits-zoned_form :
    (ds : Bytes) (negative : Bool) → AreDigits ds → zone_digits ds negative ≡ zoned_form ds negative
unfolding zone_digits zoned_form all_are
zone_digits-zoned_form [] negative h = refl
zone_digits-zoned_form (d ∷ []) negative h = ground (arith, zone (d - b'0'))
zone_digits-zoned_form (d ∷ e ∷ ds) negative h =
    ground (arith, zone (d - b'0'), zone_digits-zoned_form (e ∷ ds) negative)

zoned_form_read :
    (ds : Bytes) (negative : Bool)
    → AreDigits ds
    → ds ≢ []
    → (zoned_digits (zoned_form ds negative) ≡ ok ds)
      × (length (zoned_form ds negative) ≡ length ds)
      × (get_or (zoned_form ds negative) (length ds - 1) 0 / 16 ≡ (if negative then 0x0D else 0x0F))
unfolding zoned_digits zoned_form all_are
zoned_form_read [] negative h ne = absurd (ne refl)
zoned_form_read (d ∷ []) negative h ne = ground arith
zoned_form_read (d ∷ e ∷ []) negative h ne = ground (arith, zoned_form_read (e ∷ []) negative)
zoned_form_read (d ∷ e ∷ f ∷ ds) negative h ne =
    ground (arith, zoned_form_read (e ∷ f ∷ ds) negative)

-- For every non-empty text of digits and every sign, encodeZoned fills a field of one byte for each
-- digit, and decodeZoned reads that field as exactly the number with these digits, this scale and
-- this sign.
pub decode_zoned-encode_zoned :
    (ds : Bytes) (negative : Bool) (scale : ℕ)
    → AreDigits ds
    → ds ≢ []
    → (out : Bytes) × (encode_zoned (length ds) ds negative ≡ ok out)
      × (length out ≡ length ds)
      × (decode_zoned out (length ds) scale ≡ ok (format_decimal ds scale negative))
unfolding encode_zoned decode_zoned
decode_zoned-encode_zoned [] negative scale h ne = absurd (ne refl)
decode_zoned-encode_zoned (d ∷ ds) negative scale h ne =
    let same = zone_digits-zoned_form (d ∷ ds) negative h in
    let (r, len, sign) = zoned_form_read (d ∷ ds) negative h ne in
    (
      zoned_form (d ∷ ds) negative,
      ground (arith, same),
      len,
      ground (
        arith,
        r,
        len,
        sign,
        byte_at_ok {E = DecimalError} (zoned_form (d ∷ ds) negative)
            (length (zoned_form (d ∷ ds) negative) - 1),
      ),
    )

zoned_digits-returns : (b : Bytes) → returns (zoned_digits b) ≡ true
unfolding zoned_digits
zoned_digits-returns [] = refl
zoned_digits-returns (c ∷ b) = ground (arith, zoned_digits-returns b)

-- decodeZoned panics exactly on an empty field that is described with precision 0: it reads the
-- last byte without asking whether there is one. On every other input it returns.
pub decode_zoned-returns :
    (b : Bytes) (precision scale : ℕ)
    → (returns (decode_zoned b precision scale) ≡ false) ↔ ((b ≡ []) × (precision ≡ 0))
unfolding decode_zoned
decode_zoned-returns [] precision scale =
    (λ e. ground arith, λ h. unfold zoned_digits byte_at in ground arith)
decode_zoned-returns (c ∷ b) precision scale = (
  λ e.
      ground
        (arith, zoned_digits-returns (c ∷ b), byte_at_ok {E = DecimalError} (c ∷ b) (length b)),
  λ h. cc,
)
