-- ===== src/Cryptobyte.antt =====
-- The interface of `golang.org/x/crypto/cryptobyte`, a package that this repository only calls: the
-- builder of internal/csrattrs and internal/pkcs7, and the reader of internal/pkcs7.
-- `IsLawful` states what that package documents and the two callers rely on.
pub mod Writes
use est.Common.{ℕ, ℤ, pos, negsuc, ◌^◌, ◌<◌, ◌≡◌, Bool, [], ◌++◌, Option, none, some, Bytes, length}
use est.Common.{ObjectIdentifier, Error, Result, value, All, ◌+◌}

pub record Cryptobyte : Type 1 where
  pub Tag : Type 0
  pub sequence : Tag
  pub set : Tag
  pub integer : Tag
  pub utf8_string : Tag
  -- `casn1.Tag(n)` and its two methods
  pub tag : ℕ → Tag
  pub context_specific : Tag → Tag
  pub constructed : Tag → Tag
  pub Builder : Type 0
  -- `var b cryptobyte.Builder`
  pub empty : Builder
  pub set_error : Builder → Error → Builder
  pub add_bytes : Builder → Bytes → Builder
  pub add_asn1 : Builder → Tag → (Builder → Builder) → Builder
  pub add_asn1_object_identifier : Builder → ObjectIdentifier → Builder
  pub add_asn1_int64 : Builder → ℤ → Builder
  pub add_asn1_boolean : Builder → Bool → Builder
  pub add_asn1_octet_string : Builder → Bytes → Builder
  pub bytes : Builder → Result Bytes
  -- The methods of `cryptobyte.String`: what was read, and what is left.
  pub read_asn1 : Bytes → Tag → Option (Bytes × Bytes)
  pub read_asn1_element : Bytes → Tag → Option (Bytes × Bytes)
  pub read_asn1_object_identifier : Bytes → Option (ObjectIdentifier × Bytes)
  pub read_asn1_int64_with_tag : Bytes → Tag → Option (ℤ × Bytes)
  -- `some (none, _)`: the element is absent
  pub read_optional_asn1 : Bytes → Tag → Option (Option Bytes × Bytes)

-- What is encoded, `none` where it cannot be.
abbrev pub Der : Type 0
Der = Option Bytes

infixr 65 ◌<+>◌
abbrev pub ◌<+>◌ : Der → Der → Der
none <+> e = none
some x <+> none = none
some x <+> some y = some (x ++ y)

abbrev pub then_encode : Der → (Bytes → Der) → Der
then_encode none f = none
then_encode (some x) f = f x

-- The bytes that a builder holds, `none` after an error.
abbrev pub written : (C : Cryptobyte) → C.Builder → Der
written C b = value (C.bytes b)

abbrev pub IsInt64 : ℤ → Type 0
IsInt64 (pos n) = n < 2 ^ 63
IsInt64 (negsuc n) = n < 2 ^ 63

-- The reader keeps an arc in 31 bits, the first two as 40 times the first plus the second.
abbrev pub IsSmallArc : ℤ → Type 0
IsSmallArc (pos n) = n + 80 < 2 ^ 31
IsSmallArc (negsuc n) = ⊥

pub record IsLawful (C : Cryptobyte) : Type 0 where
  -- The DER encodings that the builder appends. An element can be too long to be encoded, and an
  -- object identifier can be invalid.
  pub element : C.Tag → Bytes → Der
  pub oid_element : ObjectIdentifier → Der
  pub int64_element : ℤ → Bytes
  pub boolean_element : Bool → Bytes
  pub octet_string_element : Bytes → Der
  -- Each method appends to what was written, and after an error nothing is written. Which of two
  -- errors is reported is not documented.
  pub written-empty : written C C.empty ≡ some []
  pub written-add_bytes :
      (b : C.Builder) (v : Bytes) → written C (C.add_bytes b v) ≡ written C b <+> some v
  pub written-add_asn1 :
      (b : C.Builder) (t : C.Tag) (f : C.Builder → C.Builder)
      → written C (C.add_asn1 b t f)
        ≡ written C b <+> then_encode (written C (f C.empty)) (element t)
  pub written-add_asn1_object_identifier :
      (b : C.Builder) (o : ObjectIdentifier)
      → written C (C.add_asn1_object_identifier b o) ≡ written C b <+> oid_element o
  pub written-add_asn1_int64 :
      (b : C.Builder) (n : ℤ)
      → written C (C.add_asn1_int64 b n) ≡ written C b <+> some (int64_element n)
  pub written-add_asn1_boolean :
      (b : C.Builder) (v : Bool)
      → written C (C.add_asn1_boolean b v) ≡ written C b <+> some (boolean_element v)
  pub written-add_asn1_octet_string :
      (b : C.Builder) (v : Bytes)
      → written C (C.add_asn1_octet_string b v) ≡ written C b <+> octet_string_element v
  pub written-set_error : (b : C.Builder) (e : Error) → written C (C.set_error b e) ≡ none
  -- The reader takes an encoded element off the front and leaves what follows it.
  pub read_asn1-element :
      (t : C.Tag) (c d rest : Bytes)
      → element t c ≡ some d
      → C.read_asn1 (d ++ rest) t ≡ some (c, rest)
  pub read_asn1_element-element :
      (t : C.Tag) (c d rest : Bytes)
      → element t c ≡ some d
      → C.read_asn1_element (d ++ rest) t ≡ some (d, rest)
  pub read_asn1_object_identifier-element :
      (o : ObjectIdentifier) (d rest : Bytes)
      → All IsSmallArc o
      → oid_element o ≡ some d
      → C.read_asn1_object_identifier (d ++ rest) ≡ some (o, rest)
  pub read_asn1_int64_with_tag-element :
      (n : ℤ) (rest : Bytes)
      → IsInt64 n
      → C.read_asn1_int64_with_tag (int64_element n ++ rest) C.integer ≡ some (n, rest)
  pub read_optional_asn1-element :
      (t : C.Tag) (c d rest : Bytes)
      → element t c ≡ some d
      → C.read_optional_asn1 (d ++ rest) t ≡ some (some c, rest)
  -- An element that was read stood at the front of the input, with its tag and length.
  pub read_asn1_element_front :
      (s : Bytes) (t : C.Tag) {d rest : Bytes}
      → C.read_asn1_element s t ≡ some (d, rest)
      → (s ≡ d ++ rest) × (0 < length d)
