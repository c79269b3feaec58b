-- ===== src/Hex.antt =====
-- Hexadecimal text as Go writes it: `fmt.Sprintf("%x", n)` on a natural number and with zero padding.
pub mod Value
use est.Common.{
  ℕ, zero, suc, ◌+◌, ◌-◌, ◌/◌, ◌%◌, List, [], ◌∷◌, ◌++◌, Bytes, ltb, if◌then◌else◌, length,
  replicate,
}

unfoldable pub hex_digit : ℕ → ℕ
hex_digit v = if ltb v 10 then v + b'0' else v - 10 + b'a'

-- The digits of `n` in front of `acc`. Each round divides by 16, so `n + 1` rounds are enough.
unfoldable pub hex_loop : ℕ → ℕ → Bytes → Bytes
hex_loop zero n acc = acc
hex_loop (suc fuel) n acc =
    let rest = hex_loop fuel (n / 16) (hex_digit (n % 16) ∷ acc) in
    if ltb n 16 then hex_digit n ∷ acc else rest

-- `%x`
unfoldable pub hex : ℕ → Bytes
hex n = hex_loop (suc n) n []

-- Zeros in front, up to the width.
unfoldable pub pad_zeros : ℕ → Bytes → Bytes
pad_zeros width s = replicate (width - length s) b'0' ++ s
