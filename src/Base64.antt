-- ===== src/Base64.antt =====
-- `base64.StdEncoding` of Go's standard library, as internal/estapi/encoding.go and
-- internal/ca/ejbca/ejbca.go use it. The input offset that its error names is left out.
pub mod RoundTrip
use est.Common.{ℕ, ◌+◌, ◌-◌, ◌*◌, ◌/◌, ◌%◌, Bool, ◌&&◌, ◌||◌, List, [], ◌∷◌, Option, none, some}
use est.Common.{Bytes, ltb, leb, ◌==◌, if◌then◌else◌, is_empty, Result, require, new, ascii}

-- The character of a value below 64.
unfoldable pub encode_digit : ℕ → ℕ
encode_digit v =
    if ltb v 26
    then v + b'A'
    else if ltb v 52
    then v - 26 + b'a'
    else if ltb v 62
    then v - 52 + b'0'
    else if v == 62
    then b'+'
    else b'/'

unfoldable pub decode_digit : ℕ → Option ℕ
decode_digit c =
    if leb b'A' c && leb c b'Z'
    then some (c - b'A')
    else if leb b'a' c && leb c b'z'
    then some (c - b'a' + 26)
    else if leb b'0' c && leb c b'9'
    then some (c - b'0' + 52)
    else if c == b'+'
    then some 62
    else if c == b'/'
    then some 63
    else none

-- `EncodeToString`, with padding.
unfoldable pub encode_to_string : Bytes → Bytes
encode_to_string [] = []
encode_to_string (a ∷ []) = encode_digit (a / 4) ∷ encode_digit (a % 4 * 16) ∷ b'=' ∷ b'=' ∷ []
encode_to_string (a ∷ b ∷ []) =
    encode_digit (a / 4)
    ∷ encode_digit (a % 4 * 16 + b / 16)
    ∷ encode_digit (b % 16 * 4)
    ∷ b'='
    ∷ []
encode_to_string (a ∷ b ∷ c ∷ rest) =
    encode_digit (a / 4)
    ∷ encode_digit (a % 4 * 16 + b / 16)
    ∷ encode_digit (b % 16 * 4 + c / 64)
    ∷ encode_digit (c % 64)
    ∷ encode_to_string rest

-- Line breaks are skipped wherever they stand.
unfoldable pub skip_newlines : Bytes → Bytes
skip_newlines [] = []
skip_newlines (c ∷ s) =
    let rest = skip_newlines s in if c == b'\n' || c == b'\r' then rest else c ∷ rest

-- The last quantum: one byte under `==`, or two bytes under `=`.
unfoldable pub decode_padded : ℕ → ℕ → ℕ → ℕ → Option Bytes
decode_padded a b c d =
    if c == b'=' && d == b'='
    then elim (decode_digit a) [
      | none ↦ none
      | some v ↦ elim (decode_digit b) [ none ↦ none | some w ↦ some ((v * 4 + w / 16) ∷ []) ]
    ]
    else if d == b'='
    then elim (decode_digit a) [
      | none ↦ none
      | some v ↦ elim (decode_digit b) [
        | none ↦ none
        | some w ↦ elim (decode_digit c) [
          | none ↦ none
          | some x ↦ some ((v * 4 + w / 16) ∷ (w % 16 * 16 + x / 4) ∷ [])
        ]
      ]
    ]
    else none

-- Three bytes of four digits.
unfoldable pub decode_quantum : ℕ → ℕ → ℕ → ℕ → Option (ℕ × ℕ × ℕ)
decode_quantum a b c d = elim (decode_digit a) [
  | none ↦ none
  | some v ↦ elim (decode_digit b) [
    | none ↦ none
    | some w ↦ elim (decode_digit c) [
      | none ↦ none
      | some x ↦ elim (decode_digit d) [
        | none ↦ none
        | some y ↦ some (v * 4 + w / 16, w % 16 * 16 + x / 4, x % 4 * 64 + y)
      ]
    ]
  ]
]

abbrev prepend : Option (ℕ × ℕ × ℕ) → Option Bytes → Option Bytes
prepend none rest = none
prepend (some (a, b, c)) none = none
prepend (some (a, b, c)) (some rest) = some (a ∷ b ∷ c ∷ rest)

-- The quanta of a text with no line breaks; a padded one must be the last.
unfoldable pub decode_quanta : Bytes → Option Bytes
decode_quanta [] = some []
decode_quanta (a ∷ b ∷ c ∷ d ∷ s) =
    let rest = decode_quanta s in
    if d == b'='
    then (if is_empty s then decode_padded a b c d else none)
    else prepend (decode_quantum a b c d) rest
decode_quanta _ = none

-- `DecodeString`
unfoldable pub decode_string : Bytes → Result Bytes
decode_string s = require (decode_quanta (skip_newlines s)) (new (ascii "illegal base64 data"))
