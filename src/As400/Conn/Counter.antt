-- ===== src/As400/Conn/Counter.antt =====
-- The correlation counter of a connection, over any number of exchanges.
use jt400_go.Prelude.{ℕ, zero, suc, ◌+◌, ◌-◌, ◌%◌, ◌^◌, ◌<◌, ◌≡◌, refl, ◌≢◌, arith}
use jt400_go.As400.Conn.{next_correlation}

-- The counter after `k` requests.
abbrev pub after : ℕ → ℕ → ℕ
after zero c = c
after (suc k) c = next_correlation (after k c)

-- The IDs of a connection run through 1, 2, ..., 2^32 - 1 and then from 1 again: after k earlier
-- requests a new connection's next one carries k mod (2^32 - 1) + 1, so never the reserved 0.
pub next_correlation-cycle : (k : ℕ) → after (suc k) 0 ≡ k % (2 ^ 32 - 1) + 1
unfolding next_correlation
next_correlation-cycle zero = refl
next_correlation-cycle (suc k) = ground (arith, next_correlation-cycle k)

-- Two requests with fewer than 2^32 - 1 requests between them carry different IDs.
pub next_correlation-ne :
    (k d : ℕ) → 0 < d → d < 2 ^ 32 - 1 → after (suc k) 0 ≢ after (suc (k + d)) 0
next_correlation-ne k d some_between few =
    omega (arith, next_correlation-cycle k, next_correlation-cycle (k + d))
