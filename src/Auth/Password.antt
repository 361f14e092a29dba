-- ===== src/Auth/Password.antt =====
-- as400/auth/password.go: the password substitute of every password level. The hash functions, DES
-- and strings.ToUpper, which reads the Unicode tables, are the fields of a Crypto; a hash that is
-- written to in parts is the hash of the parts together.
pub mod Derive
pub mod Sizes
pub mod Total
use jt400_go.Prelude.{
  ℕ, zero, suc, ◌+◌, ◌-◌, ◌*◌, ◌/◌, Bool, true, false, ◌&&◌, List, [], ◌∷◌, ◌++◌, bit_xor, ltb, leb,
  ◌==◌, if◌then◌else◌, length, take, drop, replicate, ◌||◌,
}
use jt400_go.Prelude.Int.{ℤ, pos, negsuc}
use jt400_go.Go.{Result, ok, err, ◌>>=◌, wrap, Bytes, slice, be32}
use jt400_go.Go.Runes.{runes, text_of}
use jt400_go.Go.Strings.{has_prefix, is_nil}
use jt400_go.Auth.Text.{utf16be}
use jt400_go.Auth.Ebcdic.{EbcdicError, encode_ebcdic10, decode_ebcdic_lossy}
use jt400_go.Auth.Des.{generate_des_token, generate_des_password_substitute}

pub record Crypto : Type 0 where
  pub to_upper : Bytes → Bytes
  pub enc_des : Bytes → Bytes → Bytes
  pub sha1 : Bytes → Bytes
  pub sha256 : Bytes → Bytes
  pub sha512 : Bytes → Bytes
  -- hmac.New(sha512.New, key), and the sum of what is written to it
  pub hmac_sha512 : Bytes → Bytes → Bytes

pub data PasswordError : Type 0 where
  bad_user_id bad_password : EbcdicError → PasswordError
  empty_password starts_with_star : PasswordError
  outside_latin1 : ℕ → PasswordError

abbrev pub signon_sequence : Bytes
signon_sequence = replicate 7 0 ++ (1 ∷ [])

-- string(r[:n]) or blanks after s
unfoldable pub pad_or_truncate : Bytes → ℕ → Bytes
pad_or_truncate s n =
    let r = runes s in
    if leb n (length r) then text_of (take n r) else s ++ replicate (n - length r) b' '

-- latin1Bytes, on the runes of its text
unfoldable pub latin1_loop : List ℕ → Result PasswordError Bytes
latin1_loop [] = ok []
latin1_loop (r ∷ rs) =
    let more = latin1_loop rs in
    if ltb 0xFF r then err (outside_latin1 r) else (more >>= λ out. ok (r ∷ out))

unfoldable pub latin1_bytes : Bytes → Result PasswordError Bytes
unfolding latin1_loop
latin1_bytes s = latin1_loop (runes s)

-- The last four bytes of the password, or all of it.
abbrev pub last_four : Bytes → Bytes
last_four s = if ltb 4 (length s) then drop (length s - 4) s else s

-- The byte c in front of what is left of a text.
unfoldable pub before_trimmed : ℕ → Bytes → Bytes
before_trimmed c [] = if c == 0 || c == b' ' then [] else c ∷ []
before_trimmed c (x ∷ []) = c ∷ x ∷ []
before_trimmed c (x ∷ y ∷ []) = if c == 0xE3 && (x == 0x80 && y == 0x80) then [] else c ∷ x ∷ y ∷ []
before_trimmed c (x ∷ y ∷ z ∷ s) = c ∷ x ∷ y ∷ z ∷ s

-- trimTrailingUnicodeSpace: the cutset is NUL, blank and U+3000, which is E3 80 80.
unfoldable pub trim_trailing_unicode_space : Bytes → Bytes
unfolding before_trimmed
trim_trailing_unicode_space [] = []
trim_trailing_unicode_space (c ∷ s) = before_trimmed c (trim_trailing_unicode_space s)

-- t[k] ^= u[k] for every k in range t
unfoldable pub xor_into : Bytes → Bytes → Bytes
xor_into (x ∷ t) (y ∷ u) = bit_xor x y ∷ xor_into t u
xor_into (x ∷ t) [] = x ∷ t
xor_into [] u = []

module _ (p : Crypto) where
  open p use {to_upper, enc_des, sha1, sha256, sha512, hmac_sha512}

  -- `for j := 1; j < iterations; j++`, in the rounds left, on u and t.
  unfoldable pub rounds : ℕ → Bytes → Bytes → Bytes → Bytes
  unfolding xor_into
  rounds zero password u t = t
  rounds (suc n) password u t =
      let u' = hmac_sha512 password u in rounds n password u' (xor_into t u')

  -- One round of the outer loop.
  unfoldable pub derived_block : Bytes → Bytes → ℕ → ℕ → Bytes
  unfolding rounds
  derived_block password salt iterations i =
      let u = hmac_sha512 password (salt ++ be32 i) in rounds (iterations - 1) password u u

  -- The outer loop from block i on, over the n blocks left.
  unfoldable pub derived_blocks : ℕ → ℕ → Bytes → Bytes → ℕ → Bytes
  unfolding derived_block
  derived_blocks zero i password salt iterations = []
  derived_blocks (suc n) i password salt iterations =
      derived_block password salt iterations i ++ derived_blocks n (i + 1) password salt iterations

  -- pbkdf2HMACSHA512; the size of the sums is 64.
  unfoldable pub pbkdf2_hmac_sha512 : Bytes → Bytes → ℕ → ℕ → Result PasswordError Bytes
  unfolding derived_blocks
  pbkdf2_hmac_sha512 password salt iterations key_len =
      slice (derived_blocks ((key_len + 64 - 1) / 64) 1 password salt iterations) 0 key_len

  -- A password that starts with a digit stands behind a Q.
  unfoldable pub prefixed_password : Bytes → Bytes
  prefixed_password [] = []
  prefixed_password (c ∷ s) = if leb b'0' c && leb c b'9' then b'Q' ∷ c ∷ s else c ∷ s

  -- encryptPasswordDES
  unfoldable pub encrypt_password_des : Bytes → Bytes → Bytes → Bytes → Result PasswordError Bytes
  unfolding prefixed_password
  encrypt_password_des user_id password client_seed server_seed = do
    user_id_bytes ← wrap bad_user_id (encode_ebcdic10 (to_upper user_id))
    pw_bytes ← wrap bad_password (encode_ebcdic10 (to_upper (prefixed_password password)))
    let token = generate_des_token enc_des user_id_bytes pw_bytes
    ok (
        generate_des_password_substitute enc_des user_id_bytes token signon_sequence client_seed
          server_seed)

  -- encryptPasswordSHA1
  unfoldable pub encrypt_password_sha1 : Bytes → Bytes → Bytes → Bytes → Result PasswordError Bytes
  encrypt_password_sha1 user_id password client_seed server_seed =
      wrap bad_user_id (encode_ebcdic10 (to_upper user_id)) >>= λ user_id_bytes.
      let user_id_utf16 = utf16be (runes (decode_ebcdic_lossy user_id_bytes)) in
      let pw = trim_trailing_unicode_space password in
      if is_nil pw
      then err empty_password
      else if has_prefix pw (b'*' ∷ [])
      then err starts_with_star
      else let token = sha1 (user_id_utf16 ++ utf16be (runes pw)) in
        ok (sha1 (token ++ (server_seed ++ (client_seed ++ (user_id_utf16 ++ signon_sequence)))))

  -- encryptPasswordSHA512
  unfoldable pub encrypt_password_sha512 :
      Bytes → Bytes → Bytes → Bytes → Result PasswordError Bytes
  encrypt_password_sha512 user_id password client_seed server_seed =
      let profile = pad_or_truncate user_id 10 in
      let salt = sha256 (utf16be (runes (profile ++ pad_or_truncate (last_four password) 4))) in
      latin1_bytes password >>= λ pw_latin1. pbkdf2_hmac_sha512 pw_latin1 salt 10022 64 >>= λ token.
      ok (
        sha512
          (token ++ (server_seed ++ (client_seed ++ (utf16be (runes profile) ++ signon_sequence)))))

  -- EncryptPassword. PasswordLevel is an int.
  unfoldable pub encrypt_password : ℤ → Bytes → Bytes → Bytes → Bytes → Result PasswordError Bytes
  unfolding encrypt_password_des encrypt_password_sha1 encrypt_password_sha512
  encrypt_password (negsuc n) = encrypt_password_des
  encrypt_password (pos level) =
      if ltb level 2
      then encrypt_password_des
      else if ltb level 4
      then encrypt_password_sha1
      else encrypt_password_sha512
