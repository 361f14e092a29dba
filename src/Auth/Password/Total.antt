-- ===== src/Auth/Password/Total.antt =====
-- The substitutes of a password on any texts: each ends with bytes or an error.
use jt400_go.Prelude.{ℕ, ◌≡◌, refl, [], ◌∷◌, List, length, ltb, true, Bool-cases, inl, inr}
use jt400_go.Prelude.Int.{ℤ, pos, negsuc}
use jt400_go.Go.{Bytes, ok, err, returns, wrap, ◌>>=◌}
use jt400_go.Go.Outcome.{if-returns, returns->>=, wrap-returns}
use jt400_go.Go.Runes.{runes}
use jt400_go.Go.Strings.{is_nil, has_prefix}
use jt400_go.Auth.Ebcdic.{encode_ebcdic10}
use jt400_go.Auth.Ebcdic.Laws.{encode_ebcdic_padded-returns}
use jt400_go.Auth.Password.{
  Crypto, encrypt_password, encrypt_password_des, encrypt_password_sha1, encrypt_password_sha512,
  latin1_loop, latin1_bytes, bad_user_id, bad_password, prefixed_password, pbkdf2_hmac_sha512,
  trim_trailing_unicode_space, empty_password, starts_with_star,
}
use jt400_go.Auth.Password.Derive.{pbkdf2_hmac_sha512-block_sums}
use jt400_go.Auth.Password.{outside_latin1}

pub encode_ebcdic10-returns : (s : Bytes) → returns (encode_ebcdic10 s) ≡ true
unfolding encode_ebcdic10
encode_ebcdic10-returns s = encode_ebcdic_padded-returns s 10

latin1_loop-returns : (rs : List ℕ) → returns (latin1_loop rs) ≡ true
unfolding latin1_loop
latin1_loop-returns [] = refl
latin1_loop-returns (r ∷ rs) =
    if-returns (ltb 0xFF r) (err (outside_latin1 r)) (latin1_loop rs >>= λ out. ok (r ∷ out)) refl
      (returns->>= (latin1_loop rs) (λ out. ok (r ∷ out)) (latin1_loop-returns rs) (λ out e. refl))

latin1_bytes-returns : (s : Bytes) → returns (latin1_bytes s) ≡ true
unfolding latin1_bytes
latin1_bytes-returns s = latin1_loop-returns (runes s)

module _ (p : Crypto) (sized : (key text : Bytes) → length (Crypto.hmac_sha512 p key text) ≡ 64)
    (user_id password client_seed server_seed : Bytes) where
  pbkdf2-returns : (key salt : Bytes) (n k : ℕ) → returns (pbkdf2_hmac_sha512 p key salt n k) ≡ true
  pbkdf2-returns key salt n k = rw (pbkdf2_hmac_sha512-block_sums p key (sized key) salt n k) refl

  user_bytes-returns : returns (wrap bad_user_id (encode_ebcdic10 (p.to_upper user_id))) ≡ true
  user_bytes-returns = wrap-returns bad_user_id _ (encode_ebcdic10-returns (p.to_upper user_id))

  des-returns : returns (encrypt_password_des p user_id password client_seed server_seed) ≡ true
  unfolding encrypt_password_des
  des-returns = returns->>= _ _ user_bytes-returns λ user e.
      returns->>= _ _
        (wrap-returns bad_password _
          (encode_ebcdic10-returns (p.to_upper (prefixed_password p password))))
        (λ w e'. refl)

  sha1-returns : returns (encrypt_password_sha1 p user_id password client_seed server_seed) ≡ true
  unfolding encrypt_password_sha1
  sha1-returns = returns->>= _ _ user_bytes-returns λ user e.
      let pw = trim_trailing_unicode_space password in
      if-returns (is_nil pw) (err empty_password) _ refl
        (if-returns (has_prefix pw (b'*' ∷ [])) (err starts_with_star) (ok _) refl refl)

  sha512-returns :
      returns (encrypt_password_sha512 p user_id password client_seed server_seed) ≡ true
  unfolding encrypt_password_sha512
  sha512-returns =
      returns->>= _ _ (latin1_bytes-returns password)
        λ pw e. returns->>= _ _ (pbkdf2-returns pw _ 10022 64) (λ token e'. refl)

  -- EncryptPassword ends with the substitute or an error at every level and on all texts, if the sums
  -- of HMAC have 64 bytes.
  pub encrypt_password-returns :
      (level : ℤ)
      → returns (encrypt_password p level user_id password client_seed server_seed) ≡ true
  unfolding encrypt_password
  encrypt_password-returns (negsuc n) = des-returns
  encrypt_password-returns (pos level) = elim (Bool-cases (ltb level 2)) [
    | inl low ↦ rw low des-returns
    | inr high ↦ elim (Bool-cases (ltb level 4)) [
      | inl below ↦ rw high (rw below sha1-returns)
      | inr above ↦ rw high (rw above sha512-returns)
    ]
  ]
