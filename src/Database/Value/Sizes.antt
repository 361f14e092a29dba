-- ===== src/Database/Value/Sizes.antt =====
-- What encodeValue writes has the length of its field.
use jt400_go.Prelude.{
  ℕ, zero, suc, ◌+◌, ◌-◌, ◌/◌, ◌≤◌, ◌≡◌, refl, inl, inr, Bool, [], ◌∷◌, ◌++◌, arith, ltb, leb, ◌==◌,
  Bool-cases, length, length-append, replicate, length-replicate,
}
use jt400_go.Prelude.Int.{ℤ}
use jt400_go.Go.{Result, ok, err, wrap, Bytes, be16, be32}
use jt400_go.Go.Outcome.{>>=-eq-ok, guard-eq-ok, if-both, wrap-eq-ok}
use jt400_go.Database.Format.{Field, base_type}
use jt400_go.Database.Ccsid.{Registry, encode_string, blank, ccsid_binary}
use jt400_go.Database.Decimal.{
  pack_nibbles, encode_packed, zone_digits, encode_zoned, scale_to_digits,
}
use jt400_go.Database.Value.{
  does_not_fit, Platform, Value, ValueError, unsupported_type, bad_text, bad_decimal, char_ccsid,
  type_packed, scaled_integer,
}
use jt400_go.Database.Value.Write.{
  zero_filled, pad_loop, pad_text, write_int, write_prefixed, varying_units, lob_units, write_char,
  write_binary, write_varying, write_lob, write_integer, write_float, write_decimal, write_date,
  encode_value, bytes_value, string_value, data_value, int_value, float_value, decimal_value,
}

pack_nibbles-length :
    (n : ℕ) (nibbles out : Bytes) → pack_nibbles n nibbles ≡ ok out → length out ≡ n
unfolding pack_nibbles
pack_nibbles-length zero nibbles out h = ground (arith, h)
pack_nibbles-length (suc n) [] out h = cc
pack_nibbles-length (suc n) (hi ∷ []) out h = cc
pack_nibbles-length (suc n) (hi ∷ lo ∷ rest) out h =
    let (more, e, f) = >>=-eq-ok (pack_nibbles n rest) _ h in
    ground (arith, f, pack_nibbles-length n rest more e)

encode_packed-length :
    (size : ℕ) (digits out : Bytes) (negative : Bool)
    → encode_packed size digits negative ≡ ok out
    → length out ≡ size
unfolding encode_packed
encode_packed-length size digits out negative h =
    elim (Bool-cases (size == length digits / 2 + 1)) [
      | inr no_fit ↦ ground (arith, h)
      | inl fit ↦ pack_nibbles-length size _ out (rw fit at h)
    ]

zone_digits-length :
    (digits : Bytes) (negative : Bool) → length (zone_digits digits negative) ≡ length digits
unfolding zone_digits
zone_digits-length [] negative = refl
zone_digits-length (c ∷ []) negative = refl
zone_digits-length (c ∷ d ∷ digits) negative =
    omega (arith, zone_digits-length (d ∷ digits) negative)

encode_zoned-length :
    (size : ℕ) (digits out : Bytes) (negative : Bool)
    → encode_zoned size digits negative ≡ ok out
    → length out ≡ size
unfolding encode_zoned
encode_zoned-length size digits out negative h =
    ground (arith, h, zone_digits-length digits negative)

pad_loop-length :
    (fuel : ℕ) (pad : Bytes) (room : ℕ) (out : Bytes)
    → pad_loop fuel pad room ≡ ok out
    → length out ≡ room
unfolding pad_loop
pad_loop-length zero pad room out h = ground (arith, h, length-replicate {A = ℕ} room 0)
pad_loop-length (suc fuel) pad room out h = elim (Bool-cases (leb (length pad) room)) [
  | inr done ↦ ground (arith, h, length-replicate {A = ℕ} room 0)
  | inl more ↦
      let (rest, e, f) =
        >>=-eq-ok (pad_loop fuel pad (room - length pad)) (λ (rest : Bytes). ok (pad ++ rest))
          (rw more at h) in
      ground (arith, f, pad_loop-length fuel pad (room - length pad) rest e, length-append pad rest)
]

zero_filled-length : (b : Bytes) (size : ℕ) → length b ≤ size → length (zero_filled b size) ≡ size
zero_filled-length b size h = omega (
  arith,
  length-append b (replicate (size - length b) 0),
  length-replicate {A = ℕ} (size - length b) 0,
)

pub pad_text-length :
    (registry : Registry) (ccsid size : ℕ) (s out : Bytes)
    → pad_text registry ccsid size s ≡ ok out
    → length out ≡ size
unfolding pad_text
pad_text-length registry ccsid size s out h =
    let (b, e, f) = >>=-eq-ok (wrap bad_text (encode_string registry ccsid s)) _ h in
    let (fits, g) = guard-eq-ok (ltb size (length b)) (does_not_fit (length b)) _ f in
    let (pad, e2, g2) = >>=-eq-ok (wrap bad_text (blank registry ccsid)) _ g in
    let (rest, e3, g3) = >>=-eq-ok (pad_loop size pad (size - length b)) _ g2 in
    ground
      (arith, g3, fits, pad_loop-length size pad (size - length b) rest e3, length-append b rest)

write_int-length : (size : ℕ) (n : ℤ) (out : Bytes) → write_int size n ≡ ok out → length out ≡ size
unfolding write_int
write_int-length size n out h = ground (arith, h)

write_prefixed-length :
    (prefix content : Bytes) (size : ℕ) (out : Bytes)
    → write_prefixed prefix content size ≡ ok out
    → length out ≡ size
unfolding write_prefixed
write_prefixed-length prefix content size out h = ground (
  arith,
  h,
  zero_filled-length content (size - length prefix),
  length-append prefix (zero_filled content (size - length prefix)),
)

module _ (p : Platform) (registry : Registry) (zone : Platform.Zone p) (f : Field)
    (v : Value p) where
  write_binary-length : (out : Bytes) → write_binary p registry f v ≡ ok out → length out ≡ f.size
  unfolding write_binary
  write_binary-length out h =
      let (b, e, g) = >>=-eq-ok (bytes_value p registry v) _ h in
      ground (arith, g, zero_filled-length b f.size)

  write_char-length : (out : Bytes) → write_char p registry f v zone ≡ ok out → length out ≡ f.size
  unfolding write_char
  write_char-length out h = elim (Bool-cases (f.ccsid == ccsid_binary)) [
    | inl raw ↦ write_binary-length out (rw raw at h)
    | inr coded ↦
        let (s, e, g) = >>=-eq-ok (string_value p registry v zone f) _ (rw coded at h) in
        pad_text-length registry f.ccsid f.size s out g
  ]

  write_varying-length :
      (out : Bytes) → write_varying p registry f v zone ≡ ok out → length out ≡ f.size
  unfolding write_varying
  write_varying-length out h =
      let (content, e, g) = >>=-eq-ok (data_value p registry _ f v zone) _ h in
      write_prefixed-length (be16 (varying_units f content)) content f.size out g

  write_lob-length : (out : Bytes) → write_lob p registry f v zone ≡ ok out → length out ≡ f.size
  unfolding write_lob
  write_lob-length out h =
      let (content, e, g) = >>=-eq-ok (data_value p registry _ f v zone) _ h in
      write_prefixed-length (be32 (lob_units f content)) content f.size out g

  write_integer-length : (out : Bytes) → write_integer p registry f v ≡ ok out → length out ≡ f.size
  unfolding write_integer
  write_integer-length out h =
      let (whole, g) = guard-eq-ok (ltb 0 f.scale) (scaled_integer f.scale) _ h in
      let (n, e, k) = >>=-eq-ok (int_value p registry v) _ g in write_int-length f.size n out k

  write_float-length : (out : Bytes) → write_float p registry f v ≡ ok out → length out ≡ f.size
  unfolding write_float
  write_float-length out h =
      let (x, e, g) = >>=-eq-ok (float_value p registry v) _ h in ground (arith, g)

  write_decimal-length : (out : Bytes) → write_decimal p registry f v ≡ ok out → length out ≡ f.size
  unfolding write_decimal
  write_decimal-length out h =
      let (s, e, g) = >>=-eq-ok (decimal_value p registry v) _ h in
      let (d, e2, g2) = >>=-eq-ok (wrap bad_decimal (scale_to_digits s f.precision f.scale)) _ g in
      elim (Bool-cases (base_type f == type_packed)) [
        | inl packed ↦
            encode_packed-length f.size d.0 out d.1 (wrap-eq-ok bad_decimal _ (rw packed at g2))
        | inr zoned ↦
            encode_zoned-length f.size d.0 out d.1 (wrap-eq-ok bad_decimal _ (rw zoned at g2))
      ]

  write_date-length : (out : Bytes) → write_date p registry f v zone ≡ ok out → length out ≡ f.size
  unfolding write_date
  write_date-length out h =
      let (s, e, g) = >>=-eq-ok (string_value p registry v zone f) _ h in
      pad_text-length registry (char_ccsid f) f.size _ out g

  -- A result whose bytes fill the field.
  abbrev Fills : Result ValueError Bytes → Type 0
  Fills m = (o : Bytes) → m ≡ ok o → length o ≡ f.size

  unsupported-Fills : Fills (err (unsupported_type (base_type f)))
  unsupported-Fills o h = cc

  -- What encodeValue makes of a value has exactly the length of the field, whatever the types of the
  -- field and of the value.
  pub encode_value-length :
      (out : Bytes) → encode_value p registry f v zone ≡ ok out → length out ≡ f.size
  unfolding encode_value
  encode_value-length out h =
      if-both Fills _ _ _ write_char-length
        (if-both Fills _ _ _ write_varying-length (
          if-both Fills _ _ _ write_binary-length (
            if-both Fills _ _ _ write_lob-length (
              if-both Fills _ _ _ write_integer-length (
                if-both Fills _ _ _ write_float-length (
                  if-both Fills _ _ _ write_decimal-length
                    (if-both Fills _ _ _ write_date-length unsupported-Fills)))))))
        out h
