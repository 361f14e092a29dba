-- ===== src/Go/Hex.antt =====
-- fmt's verb %#0wx on an unsigned number: 0x, and w lower-case digits or more.
use jt400_go.Prelude.{
  ℕ, zero, suc, ◌+◌, ◌-◌, ◌/◌, ◌%◌, [], ◌∷◌, ◌++◌, ltb, ◌==◌, if◌then◌else◌, length, replicate,
}
use jt400_go.Go.{Bytes}

abbrev hex_digit : ℕ → ℕ
hex_digit d = if ltb d 10 then b'0' + d else b'a' + (d - 10)

-- The digits of n in front of others, on fuel; n + 1 is enough.
unfoldable pub hex_loop : ℕ → ℕ → Bytes → Bytes
hex_loop zero n rest = rest
hex_loop (suc fuel) n rest =
    let front = hex_digit (n % 16) ∷ rest in
    let more = hex_loop fuel (n / 16) front in if n / 16 == 0 then front else more

unfoldable pub format_hex : ℕ → ℕ → Bytes
unfolding hex_loop
format_hex width n =
    let digits = hex_loop (n + 1) n [] in
    b'0' ∷ b'x' ∷ (replicate (width - length digits) b'0' ++ digits)
