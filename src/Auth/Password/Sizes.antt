-- ===== src/Auth/Password/Sizes.antt =====
-- The outcomes and the lengths of password substitutes.
use jt400_go.Prelude.{
  ℕ, ◌≡◌, sym, ap, ◌∙◌, [], ◌∷◌, if◌then◌else◌, length, ltb, Bool-cases, inl, inr,
}
use jt400_go.Prelude.Int.{ℤ, pos, negsuc}
use jt400_go.Go.{Bytes, Result, ok, err, panic, stuck, ◌>>=◌, wrap}
use jt400_go.Go.Outcome.{if-both}
use jt400_go.Auth.Des.{generate_des_password_substitute}
use jt400_go.Auth.Password.{
  Crypto, PasswordError, encrypt_password, encrypt_password_des, encrypt_password_sha1,
  encrypt_password_sha512, latin1_bytes, bad_user_id, pbkdf2_hmac_sha512, encode_ebcdic10,
  bad_password, prefixed_password, trim_trailing_unicode_space, is_nil, empty_password, has_prefix,
  starts_with_star,
}

-- The length that a level's substitute has.
abbrev pub substitute_length : ℤ → ℕ
substitute_length (negsuc n) = 8
substitute_length (pos level) = if ltb level 2 then 8 else if ltb level 4 then 20 else 64

-- Whatever bytes come out are n.
abbrev Sized : ℕ → Result PasswordError Bytes → Type 0
Sized n m = (out : Bytes) → m ≡ ok out → length out ≡ n

>>=-Sized :
    {A : Type 0} (n : ℕ) (m : Result PasswordError A) (f : A → Result PasswordError Bytes)
    → ((a : A) → Sized n (f a))
    → Sized n (m >>= f)
>>=-Sized n (ok a) f h out k = h a out k
>>=-Sized n (err e) f h out k = cc
>>=-Sized n panic f h out k = cc
>>=-Sized n stuck f h out k = cc

ok-Sized : (n : ℕ) (b : Bytes) → length b ≡ n → Sized n (ok b)
ok-Sized n b h out k = let same : b ≡ out = cc in sym (ap length same) ∙ h

err-Sized : (n : ℕ) (e : PasswordError) → Sized n (err e)
err-Sized n e out k = cc

module _ (p : Crypto) (des_sized : (key block : Bytes) → length (Crypto.enc_des p key block) ≡ 8)
    (sha1_sized : (text : Bytes) → length (Crypto.sha1 p text) ≡ 20)
    (sha512_sized : (text : Bytes) → length (Crypto.sha512 p text) ≡ 64)
    (user_id password client_seed server_seed : Bytes) where
  des-Sized : Sized 8 (encrypt_password_des p user_id password client_seed server_seed)
  unfolding encrypt_password_des generate_des_password_substitute
  des-Sized =
      let user = wrap bad_user_id (encode_ebcdic10 (p.to_upper user_id)) in
      let secret =
        wrap bad_password (encode_ebcdic10 (p.to_upper (prefixed_password p password))) in
      >>=-Sized 8 user _ (λ u. >>=-Sized 8 secret _ (λ w. ok-Sized 8 _ (des_sized _ _)))

  sha1-Sized : Sized 20 (encrypt_password_sha1 p user_id password client_seed server_seed)
  unfolding encrypt_password_sha1
  sha1-Sized =
      let pw = trim_trailing_unicode_space password in
      >>=-Sized 20 (wrap bad_user_id (encode_ebcdic10 (p.to_upper user_id))) _ (λ u.
        if-both (Sized 20) (is_nil pw) (err empty_password) _ (err-Sized 20 empty_password) (
          if-both (Sized 20) (has_prefix pw (b'*' ∷ [])) (err starts_with_star) (ok _)
            (err-Sized 20 starts_with_star) (ok-Sized 20 _ (sha1_sized _))))

  sha512-Sized : Sized 64 (encrypt_password_sha512 p user_id password client_seed server_seed)
  unfolding encrypt_password_sha512
  sha512-Sized = >>=-Sized 64 (latin1_bytes password) _ (λ u.
      >>=-Sized 64 (pbkdf2_hmac_sha512 p u _ 10022 64) _ (λ t. ok-Sized 64 _ (sha512_sized _)))

  -- A password substitute has 8 bytes at the levels below 2, 20 bytes at levels 2 and 3, and 64 bytes
  -- from level 4 on, if DES gives blocks of 8 bytes, SHA-1 sums of 20 and SHA-512 sums of 64.
  encrypt_password-length :
      (level : ℤ) (out : Bytes)
      → encrypt_password p level user_id password client_seed server_seed ≡ ok out
      → length out ≡ substitute_length level
  unfolding encrypt_password
  encrypt_password-length (negsuc n) = des-Sized
  encrypt_password-length (pos level) = elim (Bool-cases (ltb level 2)) [
    | inl low ↦ rw low des-Sized
    | inr high ↦ elim (Bool-cases (ltb level 4)) [
      | inl below ↦ rw (high, below) sha1-Sized
      | inr above ↦ rw (high, above) sha512-Sized
    ]
  ]
