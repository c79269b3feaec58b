-- ===== src/Decimal.antt =====
-- Decimal text as Go writes it: `fmt.Sprintf("%d", n)`.
use est.Common.{ℕ, zero, suc, ◌+◌, ◌/◌, ◌%◌, ℤ, pos, negsuc, [], ◌∷◌, Bytes, ltb, if◌then◌else◌}

-- The decimal digits of a number, in front of a text. Each round divides by 10, so `n + 1` rounds are
-- enough.
abbrev pub decimal_onto : ℕ → ℕ → Bytes → Bytes
decimal_onto zero n text = text
decimal_onto (suc fuel) n text =
    let more = decimal_onto fuel (n / 10) ((b'0' + n % 10) ∷ text) in
    if ltb n 10 then (b'0' + n) ∷ text else more

abbrev pub decimal : ℕ → Bytes
decimal n = decimal_onto (suc n) n []

-- `%d`
abbrev pub decimal_int : ℤ → Bytes
decimal_int (pos n) = decimal n
decimal_int (negsuc n) = b'-' ∷ decimal (n + 1)
