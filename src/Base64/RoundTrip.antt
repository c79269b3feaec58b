-- ===== src/Base64/RoundTrip.antt =====
-- Decoding the base64 text of bytes gives the bytes.
use est.Common.{ℕ, ◌+◌, ◌*◌, ◌/◌, ◌%◌, ◌<◌, ◌≡◌, refl, ◌≢◌, [], ◌∷◌, some, arith}
use est.Common.{Bytes, IsByte, All, ok}
use est.Base64.{encode_digit, decode_digit, encode_to_string, skip_newlines, decode_quanta}
use est.Base64.{decode_padded, decode_quantum, decode_string}

-- A character that base64 text is made of.
pub record IsDigit (c : ℕ) : Type 0 where
  pub visible : 32 < c
  pub ascii : c < 128

pub encode_digit-IsDigit : (v : ℕ) → v < 64 → IsDigit (encode_digit v)
unfolding encode_digit
encode_digit-IsDigit v h = ground arith

encode_digit-ne-pad : (v : ℕ) → v < 64 → encode_digit v ≢ b'='
unfolding encode_digit
encode_digit-ne-pad v h = ground arith

decode_digit-encode_digit : (v : ℕ) → v < 64 → decode_digit (encode_digit v) ≡ some v
unfolding encode_digit decode_digit
decode_digit-encode_digit v h = ground arith

pub encode_to_string-IsDigit : (s : Bytes) → All IsByte s → All IsDigit (encode_to_string s)
unfolding encode_to_string
encode_to_string-IsDigit [] h = tt
encode_to_string-IsDigit (a ∷ []) h = (
  encode_digit-IsDigit (a / 4) (omega arith),
  (encode_digit-IsDigit (a % 4 * 16) (omega arith), omega arith),
)
encode_to_string-IsDigit (a ∷ b ∷ []) h = (
  encode_digit-IsDigit (a / 4) (omega arith),
  (
    encode_digit-IsDigit (a % 4 * 16 + b / 16) (omega arith),
    (encode_digit-IsDigit (b % 16 * 4) (omega arith), omega arith),
  ),
)
encode_to_string-IsDigit (a ∷ b ∷ c ∷ s) (ha, (hb, (hc, hs))) = (
  encode_digit-IsDigit (a / 4) (omega arith),
  (
    encode_digit-IsDigit (a % 4 * 16 + b / 16) (omega arith),
    (
      encode_digit-IsDigit (b % 16 * 4 + c / 64) (omega arith),
      (encode_digit-IsDigit (c % 64) (omega arith), encode_to_string-IsDigit s hs),
    ),
  ),
)

decode_quantum-encode_digit :
    (v w x y : ℕ)
    → v < 64
    → w < 64
    → x < 64
    → y < 64
    → decode_quantum (encode_digit v) (encode_digit w) (encode_digit x) (encode_digit y)
      ≡ some (v * 4 + w / 16, w % 16 * 16 + x / 4, x % 4 * 64 + y)
unfolding decode_quantum
decode_quantum-encode_digit v w x y hv hw hx hy = rw (
  decode_quantum,
  decode_digit-encode_digit v hv,
  decode_digit-encode_digit w hw,
  decode_digit-encode_digit x hx,
  decode_digit-encode_digit y hy,
)

decode_quanta-encode_to_string :
    (s : Bytes) → All IsByte s → decode_quanta (encode_to_string s) ≡ some s
unfolding encode_to_string decode_quanta decode_padded
decode_quanta-encode_to_string [] h = refl
decode_quanta-encode_to_string (a ∷ []) h =
    ground (arith, decode_digit-encode_digit (a / 4), decode_digit-encode_digit (a % 4 * 16))
decode_quanta-encode_to_string (a ∷ b ∷ []) h = ground (
  arith,
  encode_digit-ne-pad (b % 16 * 4),
  decode_digit-encode_digit (a / 4),
  decode_digit-encode_digit (a % 4 * 16 + b / 16),
  decode_digit-encode_digit (b % 16 * 4),
)
decode_quanta-encode_to_string (a ∷ b ∷ c ∷ s) (ha, (hb, (hc, hs))) = ground (
  arith,
  encode_digit-ne-pad (c % 64),
  decode_quantum-encode_digit (a / 4) (a % 4 * 16 + b / 16) (b % 16 * 4 + c / 64) (c % 64),
  decode_quanta-encode_to_string s hs,
)

skip_newlines_visible : (s : Bytes) → All IsDigit s → skip_newlines s ≡ s
unfolding skip_newlines
skip_newlines_visible [] h = refl
skip_newlines_visible (c ∷ s) (hc, hs) = ground (arith, skip_newlines_visible s hs)

pub decode_string-encode_to_string :
    (s : Bytes) → All IsByte s → decode_string (encode_to_string s) ≡ ok s
unfolding decode_string
decode_string-encode_to_string s h = rw (
  skip_newlines_visible (encode_to_string s) (encode_to_string-IsDigit s h),
  decode_quanta-encode_to_string s h,
)
