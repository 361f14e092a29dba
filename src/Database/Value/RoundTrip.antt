-- ===== src/Database/Value/RoundTrip.antt =====
-- Values written into a field and read from it.
use jt400_go.Prelude.{
  ◌==◌, ◌∙◌, ℕ, ◌+◌, ◌-◌, ◌*◌, ◌≤◌, ◌<◌, ◌≡◌, refl, ◌⊎◌, inl, inr, false, [], ◌++◌, arith, ltb,
  length, length-append, replicate, sym, true,
}
use jt400_go.Prelude.Int.{ℤ, pos, negsuc}
use jt400_go.Go.{◌>>=◌, wrap, ok, Bytes, be16_at, be32_at, be16, be64_at}
use jt400_go.Go.Fields.{slice-append, uint16-append}
use jt400_go.Go.Outcome.{guard-eq-ok, wrap-eq-ok}
use jt400_go.Go.Numbers.{IsInt64}
use jt400_go.Database.Format.{Field, base_type}
use jt400_go.Database.Ccsid.{Registry, ccsid_binary, encode_string, decode_string}
use jt400_go.Database.Value.{
  does_not_fit, Platform, Value, ValueError, type_smallint, type_integer, type_bigint, int,
  scaled_integer, type_varchar, type_long_varchar, text, >>=-eq-ok, wrap, bad_text, type_varbinary,
  binary, Bool-cases,
}
use jt400_go.Database.Value.Read.{read_int, read_integer, decode_value, var_data, decoded_text}
use jt400_go.Database.Value.Write.{
  write_int, write_integer, encode_value, write_prefixed, zero_filled, int_value, data_value,
  string_value, bytes_value,
}
use jt400_go.Database.Value.Sizes.{encode_value-length}

read_int-write_int :
    (size : ℕ) (n : ℤ) (out : Bytes) → IsInt64 n → write_int size n ≡ ok out → read_int out ≡ ok n
unfolding write_int read_int be64_at be32_at be16_at
read_int-write_int size (pos n) out i h = ground (arith, h)
read_int-write_int size (negsuc n) out i h = ground (arith, h)

==_refl : (n : ℕ) → (n == n) ≡ true
==_refl n = ground arith

ltb-false : (a b : ℕ) → b ≤ a → ltb a b ≡ false
ltb-false a b h = ground arith

-- varData on a prefix and what it counts.
var_data-append :
    (content rest : Bytes)
    → length content < 65536
    → var_data (be16 (length content) ++ (content ++ rest)) 1 ≡ ok content
unfolding var_data
var_data-append content rest small =
    let whole = length-append content rest in
    rw
      (
        ltb-false (length (be16 (length content) ++ (content ++ rest))) 2 (omega (arith, whole)),
        uint16-append {E = ValueError} [] (content ++ rest) (length content) 0 refl small,
        ltb-false (length (be16 (length content) ++ (content ++ rest))) (2 + length content * 1)
            (omega (arith, whole)),
      )
      (slice-append (be16 (length content)) content rest 2 (2 + length content * 1) refl
        (omega arith))

-- The data of a varying field are read back, whatever zeros follow them.
var_data-write_prefixed :
    (content out : Bytes) (size : ℕ)
    → length content < 65536
    → write_prefixed (be16 (length content)) content size ≡ ok out
    → var_data out 1 ≡ ok content
unfolding write_prefixed
var_data-write_prefixed content out size small h =
    let (fits, e) =
      guard-eq-ok (ltb size (2 + length content)) (does_not_fit (length content)) _ h in
    let sent : out ≡ be16 (length content) ++ zero_filled content (size - 2) = cc in
    rw sent (var_data-append content (replicate (size - 2 - length content) 0) small)

module _ (p : Platform) (registry : Registry) (f : Field) where
  open p use {Zone}

  -- The types of integers.
  abbrev IsIntegerType : Type 0
  IsIntegerType =
      (base_type f ≡ type_smallint) ⊎ ((base_type f ≡ type_integer) ⊎ (base_type f ≡ type_bigint))

  decode_value-integer :
      (out : Bytes) (zone : Zone)
      → IsIntegerType
      → decode_value p registry f out zone ≡ read_integer p registry f out
  unfolding decode_value
  decode_value-integer out zone (inl t) = rw t refl
  decode_value-integer out zone (inr (inl t)) = rw t refl
  decode_value-integer out zone (inr (inr t)) = rw t refl

  encode_value-integer :
      (v : Value p) (zone : Zone)
      → IsIntegerType
      → encode_value p registry f v zone ≡ write_integer p registry f v
  unfolding encode_value
  encode_value-integer v zone (inl t) = rw t refl
  encode_value-integer v zone (inr (inl t)) = rw t refl
  encode_value-integer v zone (inr (inr t)) = rw t refl

  read_integer_ok :
      (b : Bytes) (n : ℤ)
      → length b ≡ f.size
      → f.scale ≡ 0
      → read_int b ≡ ok n
      → read_integer p registry f b ≡ ok (int n)
  unfolding read_integer read_int
  read_integer_ok b n sized unscaled r = grind (arith, r)

  -- A value sent in an unscaled field of type SMALLINT, INTEGER or BIGINT as the integer n is read
  -- back as n, for every n of 64 bits.
  pub decode_value-encode_value_integer :
      (v : Value p) (zone zone' : Zone) (n : ℤ) (out : Bytes)
      → IsIntegerType
      → f.scale ≡ 0
      → int_value p registry v ≡ ok n
      → IsInt64 n
      → encode_value p registry f v zone ≡ ok out
      → decode_value p registry f out zone' ≡ ok (int n)
  unfolding write_integer
  decode_value-encode_value_integer v zone zone' n out t unscaled value range h =
      let sized = encode_value-length p registry zone f v out h in
      let written = sym (encode_value-integer v zone t) ∙ h in
      let (whole, g) = guard-eq-ok (ltb 0 f.scale) (scaled_integer f.scale) _ written in
      let stored : write_int f.size n ≡ ok out = rw value at g in
      decode_value-integer out zone' t
      ∙ read_integer_ok out n sized unscaled (read_int-write_int f.size n out range stored)

  -- A text in a field of type VARCHAR or LONG VARCHAR.
  abbrev IsTextType : Type 0
  IsTextType = (base_type f ≡ type_varchar) ⊎ (base_type f ≡ type_long_varchar)

  decode_value-varying :
      (out : Bytes) (zone : Zone)
      → IsTextType
      → f.ccsid == ccsid_binary ≡ false
      → decode_value p registry f out zone ≡ (var_data out 1 >>= decoded_text p registry f.ccsid)
  unfolding decode_value
  decode_value-varying out zone (inl t) c = rw (t, c) refl
  decode_value-varying out zone (inr t) c = rw (t, c) refl

  encode_value-varying :
      (v : Value p) (zone : Zone)
      → IsTextType
      → f.ccsid == ccsid_binary ≡ false
      → encode_value p registry f v zone ≡ (
          data_value p registry false f v zone >>= λ content.
          write_prefixed (be16 (length content)) content f.size)
  unfolding encode_value
  encode_value-varying v zone (inl t) c = rw (t, c) refl
  encode_value-varying v zone (inr t) c = rw (t, c) refl

  -- What fits behind a length prefix in a field is counted by the prefix.
  write_prefixed-fits :
      (content out : Bytes)
      → f.size ≤ 65537
      → write_prefixed (be16 (length content)) content f.size ≡ ok out
      → length content < 65536
  unfolding write_prefixed
  write_prefixed-fits content out small h =
      let (fits, e) =
        guard-eq-ok (ltb f.size (2 + length content)) (does_not_fit (length content)) _ h in
      ground arith

  decode_value-varbinary :
      (out : Bytes) (zone : Zone)
      → base_type f ≡ type_varbinary
      → decode_value p registry f out zone ≡ (var_data out 1 >>= λ d. ok (binary d))
  unfolding decode_value
  decode_value-varbinary out zone t = elim (Bool-cases (f.ccsid == ccsid_binary)) [
    | inl c ↦ rw (t, c) refl
    | inr c ↦ rw (t, c) refl
  ]

  encode_value-varbinary :
      (v : Value p) (zone : Zone)
      → base_type f ≡ type_varbinary
      → encode_value p registry f v zone ≡ (
          bytes_value p registry v >>= λ content.
          write_prefixed (be16 (length content)) content f.size)
  unfolding encode_value
  encode_value-varbinary v zone t = elim (Bool-cases (f.ccsid == ccsid_binary)) [
    | inl c ↦ rw (t, c) refl
    | inr c ↦ rw (t, c) refl
  ]

  -- A value sent as the text s in a field of type VARCHAR or LONG VARCHAR, of 65,537 bytes at most, is
  -- read back as s, if the field's character set gives s back from its own bytes of s.
  pub decode_value-encode_value_text :
      (v : Value p) (zone zone' : Zone) (s out : Bytes)
      → IsTextType
      → f.size ≤ 65537
      → f.ccsid == ccsid_binary ≡ false
      → string_value p registry v zone f ≡ ok s
      → ((b : Bytes)
          → encode_string registry f.ccsid s ≡ ok b
          → decode_string registry f.ccsid b ≡ ok s)
      → encode_value p registry f v zone ≡ ok out
      → decode_value p registry f out zone' ≡ ok (text s)
  unfolding data_value decoded_text
  decode_value-encode_value_text v zone zone' s out t small c value lossless h =
      let (content, e, g) =
        >>=-eq-ok (data_value p registry false f v zone) _
          (sym (encode_value-varying v zone t c) ∙ h) in
      let coded : wrap bad_text (encode_string registry f.ccsid s) ≡ ok content = rw value at e in
      let fits = write_prefixed-fits content out small g in
      decode_value-varying out zone' t c
      ∙ rw
          (
            var_data-write_prefixed content out f.size fits g,
            lossless content (wrap-eq-ok bad_text _ coded),
          )
          refl

  -- A value sent as the bytes b in a field of type VARBINARY, of 65,537 bytes at most, is read back as b.
  pub decode_value-encode_value_binary :
      (v : Value p) (zone zone' : Zone) (b out : Bytes)
      → base_type f ≡ type_varbinary
      → f.size ≤ 65537
      → bytes_value p registry v ≡ ok b
      → encode_value p registry f v zone ≡ ok out
      → decode_value p registry f out zone' ≡ ok (binary b)
  decode_value-encode_value_binary v zone zone' b out t small value h =
      let sent = sym (encode_value-varbinary v zone t) ∙ h in
      let stored : write_prefixed (be16 (length b)) b f.size ≡ ok out = rw value at sent in
      decode_value-varbinary out zone' t
      ∙ rw (var_data-write_prefixed b out f.size (write_prefixed-fits b out small stored) stored)
          refl
