-- ===== src/Auth/Runs.antt =====
-- Password substitutes of a concrete platform, and the theorems on them there.
use jt400_go.Prelude.{◌≡◌, refl, [], ◌∷◌, ◌++◌, replicate, take, length}
use jt400_go.Prelude.Int.{pos}
use jt400_go.Go.Runes.{runes_after, first_rune}
use jt400_go.Go.{Bytes, ok, err}
use jt400_go.Go.Strings.{has_prefix}
use jt400_go.Auth.Password.{
  Crypto, trim_trailing_unicode_space, pbkdf2_hmac_sha512, encrypt_password, signon_sequence,
  encrypt_password_sha1, before_trimmed, starts_with_star,
}
use jt400_go.Auth.Des.Sums.{number, add_array8-number}
use jt400_go.Auth.Des.{xor_with_0x55_and_lshift, add_array8, shift_left, add_loop}
use jt400_go.Auth.Password.Derive.{block_sums, pbkdf2_hmac_sha512-block_sums}
use jt400_go.Auth.Ebcdic.{
  encode_ebcdic10, encode_ebcdic_padded, encode_ebcdic, lookup, ascii_to_ebcdic, run,
  ebcdic_to_ascii, decode_ebcdic_lossy,
}
use jt400_go.Auth.Text.{utf16be, utf16_units, units_bytes}

-- DES that gives a constant block, and hashes that see the length of the text only.
abbrev platform : Crypto
platform = record {
  to_upper = λ s. s;
  enc_des = λ key block. replicate 8 7;
  sha1 = λ text. length text ∷ replicate 19 0;
  sha256 = λ text. length text ∷ replicate 31 0;
  sha512 = λ text. length text ∷ replicate 63 0;
  hmac_sha512 = λ key text. length text ∷ replicate 63 1;
}

abbrev seed : Bytes
seed = replicate 7 0 ++ (255 ∷ [])

-- The carry goes through.
add_run : add_array8 seed signon_sequence ≡ replicate 6 0 ++ (1 ∷ 0 ∷ [])
unfolding add_array8 add_loop
add_run = refl

shift_run :
    xor_with_0x55_and_lshift (replicate 7 0x55 ++ (0xD5 ∷ [])) ≡ replicate 6 0 ++ (1 ∷ 0 ∷ [])
unfolding xor_with_0x55_and_lshift shift_left
shift_run = refl

trim_run : trim_trailing_unicode_space (97 ∷ 0xE3 ∷ 0x80 ∷ 0x80 ∷ 32 ∷ 0 ∷ []) ≡ 97 ∷ []
unfolding trim_trailing_unicode_space before_trimmed
trim_run = refl

star_run :
    encrypt_password platform (pos 2) (65 ∷ []) (b'*' ∷ 65 ∷ []) seed seed ≡ err starts_with_star
unfolding encrypt_password encrypt_password_sha1 encode_ebcdic10 encode_ebcdic_padded encode_ebcdic
    trim_trailing_unicode_space before_trimmed has_prefix lookup ascii_to_ebcdic run
star_run = refl

abbrev substitute : Bytes
substitute = 64 ∷ replicate 19 0

sha1_run : encrypt_password platform (pos 3) (65 ∷ []) (66 ∷ []) seed seed ≡ ok substitute
unfolding encrypt_password encrypt_password_sha1 encode_ebcdic10 encode_ebcdic_padded encode_ebcdic
    trim_trailing_unicode_space before_trimmed has_prefix lookup ascii_to_ebcdic ebcdic_to_ascii run
    decode_ebcdic_lossy utf16be utf16_units units_bytes runes_after first_rune
sha1_run = refl

add_array8-number_example : number (add_array8 seed signon_sequence) ≡ 256
add_array8-number_example = add_array8-number seed signon_sequence refl refl

pbkdf2_hmac_sha512-block_sums_example :
    pbkdf2_hmac_sha512 platform (1 ∷ []) (2 ∷ []) 3 70
    ≡ ok (take 70 (block_sums platform (1 ∷ []) (2 ∷ []) 3 2 1))
pbkdf2_hmac_sha512-block_sums_example =
    pbkdf2_hmac_sha512-block_sums platform (1 ∷ []) (λ text. refl) (2 ∷ []) 3 70
