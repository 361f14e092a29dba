-- ===== src/Auth/Password/Derive.antt =====
-- pbkdf2HMACSHA512 and the function of RFC 2898, section 5.2.
use jt400_go.Prelude.{
  ℕ, zero, suc, ◌+◌, ◌-◌, ◌*◌, ◌/◌, ◌≡◌, refl, sym, ap, ◌∙◌, [], ◌∷◌, ◌++◌, take, arith, length,
  length-append,
}
use jt400_go.Go.{Bytes, be32, ok}
use jt400_go.Go.Fields.{slice_ok}
use jt400_go.Auth.Password.{
  PasswordError, Crypto, rounds, derived_block, derived_blocks, pbkdf2_hmac_sha512, xor_into,
}
use native.Mathlib.Nat.{add-zero, zero-add, sub-zero}

xor_into-length : (t u : Bytes) → length (xor_into t u) ≡ length t
unfolding xor_into
xor_into-length [] u = refl
xor_into-length (x ∷ t) [] = refl
xor_into-length (x ∷ t) (y ∷ u) = ap suc (xor_into-length t u)

module _ (p : Crypto) (password : Bytes) where
  open p use {hmac_sha512}

  -- U_(j+1) of the RFC, from U_1.
  abbrev pub chain : Bytes → ℕ → Bytes
  chain first zero = first
  chain first (suc j) = hmac_sha512 password (chain first j)

  -- U_1 xor ... xor U_(j+1)
  abbrev pub chain_sum : Bytes → ℕ → Bytes
  chain_sum first zero = first
  chain_sum first (suc j) = xor_into (chain_sum first j) (chain first (suc j))

  rounds-chain :
      (n j : ℕ) (first : Bytes)
      → rounds p n password (chain first j) (chain_sum first j) ≡ chain_sum first (j + n)
  unfolding rounds
  rounds-chain zero j first = ap (chain_sum first) (sym (add-zero j))
  rounds-chain (suc n) j first =
      let moved : suc j + n ≡ j + suc n = omega arith in
      rounds-chain n (suc j) first ∙ ap (chain_sum first) moved

  -- The function F of the RFC: the sum of the chain that starts with the block's number.
  abbrev pub block_sum : Bytes → ℕ → ℕ → Bytes
  block_sum salt iterations i = chain_sum (hmac_sha512 password (salt ++ be32 i)) (iterations - 1)

  derived_block-block_sum :
      (salt : Bytes) (iterations i : ℕ)
      → derived_block p password salt iterations i ≡ block_sum salt iterations i
  unfolding derived_block
  derived_block-block_sum salt iterations i =
      rounds-chain (iterations - 1) zero _ ∙ ap (chain_sum _) (zero-add (iterations - 1))

  -- T_i || ... || T_(i+n-1)
  abbrev pub block_sums : Bytes → ℕ → ℕ → ℕ → Bytes
  block_sums salt iterations zero i = []
  block_sums salt iterations (suc n) i =
      block_sum salt iterations i ++ block_sums salt iterations n (i + 1)

  derived_blocks-block_sums :
      (n i : ℕ) (salt : Bytes) (iterations : ℕ)
      → derived_blocks p n i password salt iterations ≡ block_sums salt iterations n i
  unfolding derived_blocks
  derived_blocks-block_sums zero i salt iterations = refl
  derived_blocks-block_sums (suc n) i salt iterations =
      ap (λ b. derived_block p password salt iterations i ++ b)
        (derived_blocks-block_sums n (i + 1) salt iterations)
      ∙ ap (λ b. b ++ block_sums salt iterations n (i + 1))
          (derived_block-block_sum salt iterations i)

  module _ (sized : (text : Bytes) → length (hmac_sha512 password text) ≡ 64) where
    chain_sum-length : (first : Bytes) (j : ℕ) → length (chain_sum first j) ≡ length first
    chain_sum-length first zero = refl
    chain_sum-length first (suc j) = xor_into-length _ _ ∙ chain_sum-length first j

    block_sums-length :
        (n i : ℕ) (salt : Bytes) (iterations : ℕ) → length (block_sums salt iterations n i) ≡ n * 64
    block_sums-length zero i salt iterations = refl
    block_sums-length (suc n) i salt iterations =
        let first = hmac_sha512 password (salt ++ be32 i) in
        let block : length (block_sum salt iterations i) ≡ 64 =
          chain_sum-length first (iterations - 1) ∙ sized _ in
        omega (
          arith,
          length-append (block_sum salt iterations i) (block_sums salt iterations n (i + 1)),
          block,
          block_sums-length n (i + 1) salt iterations,
        )

    -- pbkdf2HMACSHA512 returns the first key_len bytes of T_1 || T_2 || ..., where each T_i is the sum
    -- of the chain that HMAC gives from the salt and i, as RFC 2898 defines it, if the sums of HMAC
    -- have 64 bytes.
    pub pbkdf2_hmac_sha512-block_sums :
        (salt : Bytes) (iterations key_len : ℕ)
        → pbkdf2_hmac_sha512 p password salt iterations key_len
          ≡ ok (take key_len (block_sums salt iterations ((key_len + 63) / 64) 1))
    unfolding pbkdf2_hmac_sha512
    pbkdf2_hmac_sha512-block_sums salt iterations key_len =
        let n = (key_len + 63) / 64 in
        let same : (key_len + 64 - 1) / 64 ≡ n = ap (λ k. k / 64) (omega arith) in
        let size = block_sums-length n 1 salt iterations in
        rw (same, derived_blocks-block_sums n 1 salt iterations)
          (rw (sub-zero key_len) at (
            slice_ok {E = PasswordError} (block_sums salt iterations n 1) 0 key_len (omega arith)
              (omega (arith, size))))
