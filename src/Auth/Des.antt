-- ===== src/Auth/Des.antt =====
-- as400/auth/password_des.go: the password substitute of password levels 0 and 1. encDES, which
-- calls crypto/des, is the parameter `enc_des` of a key and a block. An array of eight or ten bytes
-- is a list of that length.
pub mod Sums
use jt400_go.Prelude.{
  ℕ, zero, suc, ◌+◌, ◌-◌, ◌*◌, ◌/◌, ◌%◌, ◌||◌, List, [], ◌∷◌, ◌++◌, map, bit_and, bit_or, bit_xor,
  ltb, ◌==◌, if◌then◌else◌, length, take, drop, replicate, get_or,
}
use jt400_go.Go.{Bytes}

-- The shifting loop of xorWith0x55AndLshift. The last byte takes in no bit.
unfoldable pub shift_left : Bytes → Bytes
shift_left [] = []
shift_left (b ∷ []) = (b * 2 % 256) ∷ []
shift_left (b ∷ c ∷ rest) = bit_or (b * 2 % 256) (bit_and c 0x80 / 128) ∷ shift_left (c ∷ rest)

-- xorWith0x55AndLshift
unfoldable pub xor_with_0x55_and_lshift : Bytes → Bytes
unfolding shift_left
xor_with_0x55_and_lshift b = shift_left (map (λ x. bit_xor x 0x55) b)

-- xorArray8
unfoldable pub xor_array8 : Bytes → Bytes → Bytes
xor_array8 (a ∷ xs) (b ∷ ys) = bit_xor a b ∷ xor_array8 xs ys
xor_array8 _ _ = []

-- The loop of addArray8, which starts at the last bytes: the carry, and the bytes it has put out.
unfoldable pub add_loop : Bytes → Bytes → ℕ × Bytes
add_loop (a ∷ xs) (b ∷ ys) =
    let (carry, out) = add_loop xs ys in ((a + b + carry) / 256, (a + b + carry) % 256 ∷ out)
add_loop _ _ = (0, [])

-- addArray8
unfoldable pub add_array8 : Bytes → Bytes → Bytes
unfolding add_loop
add_array8 a b = (add_loop a b).1

-- ebcdicFieldLen
unfoldable pub ebcdic_field_len : Bytes → ℕ
ebcdic_field_len [] = 0
ebcdic_field_len (b ∷ rest) = if b == 0x40 || b == 0 then 0 else suc (ebcdic_field_len rest)

-- The eight assignments to work1, whose bytes 8 and 9 they only read: the first eight bytes after
-- them.
unfoldable pub fold_user_id : Bytes → Bytes
fold_user_id user_id =
    let w = λ (i : ℕ). get_or user_id i 0 in
    bit_xor (w 0) (bit_and (w 8) 0xC0)
    ∷ bit_xor (w 1) (bit_and (w 8) 0x30 * 4 % 256)
    ∷ bit_xor (w 2) (bit_and (w 8) 0x0C * 16 % 256)
    ∷ bit_xor (w 3) (bit_and (w 8) 0x03 * 64 % 256)
    ∷ bit_xor (w 4) (bit_and (w 9) 0xC0)
    ∷ bit_xor (w 5) (bit_and (w 9) 0x30 * 4 % 256)
    ∷ bit_xor (w 6) (bit_and (w 9) 0x0C * 16 % 256)
    ∷ bit_xor (w 7) (bit_and (w 9) 0x03 * 64 % 256)
    ∷ []

-- Eight blanks, over which the bytes are copied.
abbrev pub over_blanks : Bytes → Bytes
over_blanks b = take 8 b ++ replicate (8 - length b) 0x40

module _ (enc_des : Bytes → Bytes → Bytes) where
  -- generateDESToken
  unfoldable pub generate_des_token : Bytes → Bytes → Bytes
  unfolding fold_user_id ebcdic_field_len xor_with_0x55_and_lshift xor_array8
  generate_des_token user_id password =
      let folded =
        if ltb 8 (ebcdic_field_len user_id) then fold_user_id user_id else take 8 user_id in
      let pw_len = ebcdic_field_len password in
      if ltb 8 pw_len
      then xor_array8 (enc_des (xor_with_0x55_and_lshift (take 8 password)) folded)
          (enc_des (xor_with_0x55_and_lshift (over_blanks (drop 8 (take pw_len password)))) folded)
      else enc_des (xor_with_0x55_and_lshift (over_blanks (take pw_len password))) folded

  -- generateDESPasswordSubstitute
  unfoldable pub generate_des_password_substitute : Bytes → Bytes → Bytes → Bytes → Bytes → Bytes
  unfolding add_array8 xor_array8
  generate_des_password_substitute user_id token sequence_number client_seed server_seed =
      let rdr_seq = add_array8 sequence_number server_seed in
      let enc1 = enc_des token rdr_seq in
      let enc2 = enc_des token (xor_array8 enc1 client_seed) in
      let enc3 = enc_des token (xor_array8 (xor_array8 (take 8 user_id) rdr_seq) enc2) in
      let tail = get_or user_id 8 0 ∷ get_or user_id 9 0 ∷ replicate 6 0x40 in
      let enc4 = enc_des token (xor_array8 (xor_array8 rdr_seq tail) enc3) in
      enc_des token (xor_array8 sequence_number enc4)
