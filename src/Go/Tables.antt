-- ===== src/Go/Tables.antt =====
-- Checking every value of a small range by evaluation, for laws of the bit operations on bytes.
use jt400_go.Prelude.{ℕ, zero, suc, ◌<◌, ◌≡◌, Bool, true, ◌&&◌, arith}

unfoldable pub all_below : (ℕ → Bool) → ℕ → Bool
all_below test zero = true
all_below test (suc limit) = all_below test limit && test limit

-- A test that passed on the whole range passes on each of its values.
pub all_below_sound :
    (test : ℕ → Bool) (limit k : ℕ) → k < limit → all_below test limit ≡ true → test k ≡ true
unfolding all_below
all_below_sound test zero k small passed = absurd (omega arith)
all_below_sound test (suc limit) k small passed = ground (arith, all_below_sound test limit k)
