-- ===== src/Hex/Value.antt =====
-- The number that a hexadecimal text stands for: it shows that the text determines the number.
use est.Common.{
  ℕ, zero, suc, ◌+◌, ◌-◌, ◌*◌, ◌/◌, ◌%◌, ◌≤◌, ◌<◌, ◌≡◌, refl, ◌∙◌, ap, arith, [], ◌∷◌, ◌++◌, Bytes,
  ltb, if◌then◌else◌, length, replicate, All, All-append, Bool-cases, inl, inr,
}
use native.Mathlib.Nat.{zero-add, zero-mul}
use est.Hex.{hex_digit, hex_loop, hex, pad_zeros}

abbrev pub digit_value : ℕ → ℕ
digit_value c = if ltb c b'a' then c - b'0' else c - b'a' + 10

-- The value of the digits behind a number that was read already.
pub value_from : ℕ → Bytes → ℕ
value_from n [] = n
value_from n (c ∷ s) = value_from (n * 16 + digit_value c) s

-- Not a sign.
abbrev pub IsHexDigit : ℕ → Type 0
IsHexDigit c = b'0' ≤ c

hex_digit_value : (v : ℕ) → v < 16 → digit_value (hex_digit v) ≡ v
unfolding hex_digit
hex_digit_value v h = ground arith

hex_digit-IsHexDigit : (v : ℕ) → IsHexDigit (hex_digit v)
unfolding hex_digit
hex_digit-IsHexDigit v = ground arith

value_from-hex_loop :
    (fuel n : ℕ) (acc : Bytes) → n < fuel → value_from 0 (hex_loop fuel n acc) ≡ value_from n acc
unfolding hex_loop value_from
value_from-hex_loop zero n acc h = absurd (omega arith)
value_from-hex_loop (suc fuel) n acc h = elim (Bool-cases (ltb n 16)) [
  | inl e ↦ rw (e, value_from, hex_digit_value n (ground arith), zero-mul, zero-add)
  | inr e ↦ rw e (
      value_from-hex_loop fuel (n / 16) (hex_digit (n % 16) ∷ acc) (ground arith)
      ∙ rw (value_from, hex_digit_value (n % 16) (omega arith))
          (ap (λ k. value_from k acc) (omega arith)))
]

hex_loop-IsHexDigit :
    (fuel n : ℕ) (acc : Bytes) → All IsHexDigit acc → All IsHexDigit (hex_loop fuel n acc)
unfolding hex_loop
hex_loop-IsHexDigit zero n acc h = h
hex_loop-IsHexDigit (suc fuel) n acc h = elim (Bool-cases (ltb n 16)) [
  | inl e ↦ rw e (hex_digit-IsHexDigit n, h)
  | inr e ↦ rw e (hex_loop-IsHexDigit fuel (n / 16) _ (hex_digit-IsHexDigit (n % 16), h))
]

value_from-zeros : (k : ℕ) (s : Bytes) → value_from 0 (replicate k b'0' ++ s) ≡ value_from 0 s
unfolding value_from
value_from-zeros zero s = refl
value_from-zeros (suc k) s = value_from-zeros k s

zeros-IsHexDigit : (k : ℕ) → All IsHexDigit (replicate k b'0')
zeros-IsHexDigit zero = tt
zeros-IsHexDigit (suc k) = (omega arith, zeros-IsHexDigit k)

-- Padded or not, the text has the value of the number, and no sign in it.
pub value_from-pad_zeros : (width n : ℕ) → value_from 0 (pad_zeros width (hex n)) ≡ n
unfolding pad_zeros hex
value_from-pad_zeros width n =
    value_from-zeros (width - length (hex n)) (hex n)
    ∙ value_from-hex_loop (suc n) n [] (omega arith)
    ∙ unfold value_from in refl

pub pad_zeros-IsHexDigit : (width n : ℕ) → All IsHexDigit (pad_zeros width (hex n))
unfolding pad_zeros hex
pad_zeros-IsHexDigit width n =
    All-append IsHexDigit _ _ (zeros-IsHexDigit (width - length (hex n)))
      (hex_loop-IsHexDigit (suc n) n [] tt)
