-- ===== src/Ca/Serial.antt =====
-- internal/ca/serial.go: where serial numbers come from.
use native.Mathlib.Nat.{mul-le-mul_right, pow-succ'}
use est.Common.{
  ℕ, suc, ◌+◌, ◌*◌, ◌%◌, ◌^◌, ◌<◌, ◌≤◌, ◌≡◌, refl, ap, arith, ℤ, pos, [], ◌∷◌, Bytes, ascii, All,
  IsByte, length, Result, ok, err, context,
}

-- `SerialSource`
pub record SerialSource : Type 1 where
  pub State : Type 0
  pub next : State → Result ℤ × State

-- `big.Int.SetBytes`, behind the number that was read already.
unfoldable pub big_endian : ℕ → Bytes → ℕ
big_endian n [] = n
big_endian n (b ∷ s) = big_endian (n * 256 + b) s

-- `buf[0] &^= 0x80`
unfoldable pub clear_top_bit : Bytes → Bytes
clear_top_bit [] = []
clear_top_bit (b ∷ s) = (b % 128) ∷ s

-- What the calls of `rand.Read` on a buffer of 20 bytes yield, one after the other.
pub record Entropy : Type 0 where
  pub read : ℕ → Result Bytes
  pub used : ℕ

-- A buffer that was filled.
pub record IsFilled (buf : Bytes) : Type 0 where
  pub size : length buf ≡ 20
  pub bytes : All IsByte buf

unfoldable pub random_serial : Result Bytes → Result ℤ
random_serial (err e) = context (ascii "ca: generate serial") (err e)
random_serial (ok buf) = ok (pos (big_endian 0 (clear_top_bit buf)))

-- `RandomSerialSource`
abbrev pub random_serial_source : SerialSource
random_serial_source = record {
  State = Entropy;
  next = λ s. (random_serial (s.read s.used), record s { used = s.used + 1 });
}

big_endian-lt : (n : ℕ) (s : Bytes) → All IsByte s → big_endian n s < (n + 1) * 256 ^ length s
unfolding big_endian
big_endian-lt n [] h = omega arith
big_endian-lt n (b ∷ s) (hb, hs) =
    let p = 256 ^ length s in
    let step : (n * 256 + b + 1) * p ≤ (n + 1) * 256 * p = mul-le-mul_right p (omega arith) in
    let whole : big_endian (n * 256 + b) s < (n + 1) * 256 ^ suc (length s) = omega (
      arith,
      big_endian-lt (n * 256 + b) s hs,
      step,
      ap (λ q. (n + 1) * q) (pow-succ' 256 (length s)),
    ) in
    whole

-- From a filled buffer comes a serial number that is not negative and below 2 ^ 159.
pub random_serial-bounded :
    (buf : Bytes) → IsFilled buf → (n : ℕ) × (random_serial (ok buf) ≡ ok (pos n)) × (n < 2 ^ 159)
unfolding random_serial clear_top_bit big_endian
random_serial-bounded [] h = absurd (ground (arith, h.size))
random_serial-bounded (b ∷ s) h =
    let size : length s ≡ 19 = omega (arith, h.size) in
    let bound = big_endian-lt (0 + b % 128) s h.bytes.1 in
    (big_endian (0 + b % 128) s, refl, omega (arith, (rw size at bound)))
