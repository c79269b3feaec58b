-- ===== src/Utf8.antt =====
-- UTF-8 as Go's `range` over a string reads it and `strings.Builder.WriteRune` writes it.
use est.Common.{ℕ, ◌+◌, ◌*◌, ◌/◌, ◌%◌, ◌<◌, ◌≡◌, ◌&&◌, ◌||◌, Bool, arith}
use est.Common.{[], ◌∷◌, Bytes, ltb, leb, ◌==◌, if◌then◌else◌}

-- `utf8.RuneError`
abbrev pub rune_error : ℕ
rune_error = 0xfffd

-- The bytes that may follow the first byte of a longer sequence.
unfoldable pub is_second : ℕ → ℕ → Bool
is_second b0 b1 =
    if b0 == 0xe0
    then leb 0xa0 b1 && leb b1 0xbf
    else if b0 == 0xed
    then leb 0x80 b1 && leb b1 0x9f
    else if b0 == 0xf0
    then leb 0x90 b1 && leb b1 0xbf
    else if b0 == 0xf4
    then leb 0x80 b1 && leb b1 0x8f
    else leb 0x80 b1 && leb b1 0xbf

abbrev is_continuation : ℕ → Bool
is_continuation b = leb 0x80 b && leb b 0xbf

-- The rune at the front and its width in bytes; a byte that starts none is `rune_error`, of width 1.
unfoldable pub decode_rune : Bytes → ℕ × ℕ
unfolding is_second
decode_rune [] = (rune_error, 0)
decode_rune (b0 ∷ []) = if ltb b0 0x80 then (b0, 1) else (rune_error, 1)
decode_rune (b0 ∷ b1 ∷ []) =
    if ltb b0 0x80
    then (b0, 1)
    else if leb 0xc2 b0 && ltb b0 0xe0 && is_second b0 b1
    then (b0 % 32 * 64 + b1 % 64, 2)
    else (rune_error, 1)
decode_rune (b0 ∷ b1 ∷ b2 ∷ []) =
    if ltb b0 0x80
    then (b0, 1)
    else if leb 0xc2 b0 && ltb b0 0xe0 && is_second b0 b1
    then (b0 % 32 * 64 + b1 % 64, 2)
    else if leb 0xe0 b0 && ltb b0 0xf0 && is_second b0 b1 && is_continuation b2
    then (b0 % 16 * 4096 + b1 % 64 * 64 + b2 % 64, 3)
    else (rune_error, 1)
decode_rune (b0 ∷ b1 ∷ b2 ∷ b3 ∷ _) =
    if ltb b0 0x80
    then (b0, 1)
    else if leb 0xc2 b0 && ltb b0 0xe0 && is_second b0 b1
    then (b0 % 32 * 64 + b1 % 64, 2)
    else if leb 0xe0 b0 && ltb b0 0xf0 && is_second b0 b1 && is_continuation b2
    then (b0 % 16 * 4096 + b1 % 64 * 64 + b2 % 64, 3)
    else if leb 0xf0 b0
        && leb b0 0xf4
        && is_second b0 b1
        && is_continuation b2
        && is_continuation b3
    then (b0 % 8 * 262144 + b1 % 64 * 4096 + b2 % 64 * 64 + b3 % 64, 4)
    else (rune_error, 1)

-- `utf8.AppendRune`
unfoldable pub encode_rune : ℕ → Bytes
encode_rune r =
    if ltb r 0x80
    then r ∷ []
    else if ltb r 0x800
    then (0xc0 + r / 64) ∷ (0x80 + r % 64) ∷ []
    else if (leb 0xd800 r && leb r 0xdfff) || ltb 0x10ffff r
    then 0xef ∷ 0xbf ∷ 0xbd ∷ []
    else if ltb r 0x10000
    then (0xe0 + r / 4096) ∷ (0x80 + r / 64 % 64) ∷ (0x80 + r % 64) ∷ []
    else (0xf0 + r / 262144) ∷ (0x80 + r / 4096 % 64) ∷ (0x80 + r / 64 % 64) ∷ (0x80 + r % 64) ∷ []

pub decode_rune-ascii : (b : ℕ) (s : Bytes) → b < 128 → decode_rune (b ∷ s) ≡ (b, 1)
unfolding decode_rune
decode_rune-ascii b [] h = ground arith
decode_rune-ascii b (b1 ∷ []) h = ground arith
decode_rune-ascii b (b1 ∷ b2 ∷ []) h = ground arith
decode_rune-ascii b (b1 ∷ b2 ∷ b3 ∷ s) h = ground arith

pub encode_rune-ascii : (b : ℕ) → b < 128 → encode_rune b ≡ b ∷ []
unfolding encode_rune
encode_rune-ascii b h = ground arith
