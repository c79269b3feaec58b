-- ===== src/CsrAttrs/Oid.antt =====
-- `parseOID` of internal/csrattrs/csrattrs.go, with what it uses of `strings.Split` and
-- `strconv.Atoi`, and `hex.DecodeString`.
pub mod Dotted
use est.Common.{
  ℕ, zero, suc, ◌+◌, ◌-◌, ◌*◌, ◌^◌, ℤ, pos, negsuc, ◌&&◌, List, [], ◌∷◌, Option, none, some, Bytes,
  ascii, leb, ltb, ◌==◌, ObjectIdentifier, Result, ok, new, require, context, ◌>>=◌, if◌then◌else◌,
}

-- `strings.Split(s, ".")`.
add_to_first : ℕ → List Bytes → List Bytes
add_to_first c [] = (c ∷ []) ∷ []
add_to_first c (f ∷ fs) = (c ∷ f) ∷ fs

unfoldable pub split_dots : Bytes → List Bytes
unfolding add_to_first
split_dots [] = [] ∷ []
split_dots (c ∷ s) = let rest = split_dots s in if c == b'.' then [] ∷ rest else add_to_first c rest

-- The value of decimal digits behind a number that was read already.
unfoldable pub digits_value : ℕ → Bytes → Option ℕ
digits_value n [] = some n
digits_value n (c ∷ s) =
    let rest = digits_value (n * 10 + (c - b'0')) s in
    if leb b'0' c && leb c b'9' then rest else none

-- One digit at least.
unfoldable pub unsigned : Bytes → Option ℕ
unsigned [] = none
unsigned (c ∷ s) = digits_value 0 (c ∷ s)

-- -n, as an `int`
unfoldable pub negative : ℕ → ℤ
negative zero = pos 0
negative (suc n) = negsuc n

unfoldable pub in_range : ℕ → ℤ → ℕ → Option ℤ
in_range n v limit = if ltb n limit then some v else none

-- `strconv.Atoi`: an optional sign, digits, and a value that fits 64 bits.
unfoldable pub atoi : Bytes → Option ℤ
atoi [] = none
atoi (c ∷ s) =
    if c == b'-'
    then elim (unsigned s) [ none ↦ none | some n ↦ in_range n (negative n) (2 ^ 63 + 1) ]
    else if c == b'+'
    then elim (unsigned s) [ none ↦ none | some n ↦ in_range n (pos n) (2 ^ 63) ]
    else elim (unsigned (c ∷ s)) [ none ↦ none | some n ↦ in_range n (pos n) (2 ^ 63) ]

-- The loop over the fields.
unfoldable pub parse_fields : List Bytes → Result ObjectIdentifier
parse_fields [] = ok []
parse_fields (f ∷ fields) = do
  n ← context (ascii "invalid OID") (require (atoi f) (new (ascii "strconv.Atoi: parsing")))
  oid ← parse_fields fields
  ok (n ∷ oid)

unfoldable pub parse_oid : Bytes → Result ObjectIdentifier
parse_oid dotted = parse_fields (split_dots dotted)

unfoldable pub hex_value : ℕ → Option ℕ
hex_value c =
    if leb b'0' c && leb c b'9'
    then some (c - b'0')
    else if leb b'a' c && leb c b'f'
    then some (c - b'a' + 10)
    else if leb b'A' c && leb c b'F'
    then some (c - b'A' + 10)
    else none

-- `hex.DecodeString`
unfoldable pub decode_hex : Bytes → Option Bytes
decode_hex [] = some []
decode_hex (c ∷ []) = none
decode_hex (c ∷ d ∷ s) =
    let rest = decode_hex s in
    elim (hex_value c) [
      | none ↦ none
      | some h ↦ elim (hex_value d) [
        | none ↦ none
        | some l ↦ elim rest [ none ↦ none | some bs ↦ some ((h * 16 + l) ∷ bs) ]
      ]
    ]
