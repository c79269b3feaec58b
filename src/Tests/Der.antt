-- ===== src/Tests/Der.antt =====
-- A cryptobyte for tests: DER elements of less than 64 KiB, two object identifiers, and integers of
-- one or of nine bytes.
pub mod Lawful
use est.Common.{
  ℕ, ◌+◌, ◌*◌, ◌/◌, ◌%◌, ◌^◌, ◌<◌, ◌≡◌, refl, ap, arith, ℤ, pos, negsuc, true, [], ◌∷◌, ◌++◌,
  append_assoc, Option, none, some,
}
use est.Common.{
  Bytes, length, length-append, is_empty, le→leb, Bool-cases, Option-cases, take-append-drop, inl,
  inr, subst, take, drop, ltb, leb, ◌==◌, if◌then◌else◌, ObjectIdentifier, oid_eq, oid_eq_iff,
  str_eq, new, Result, ok, err, value,
}
use mathlib.Core.Option.{some-injective}
use est.Cryptobyte.{Cryptobyte, IsLawful, IsInt64, Der, ◌<+>◌, then_encode}
use est.Cryptobyte.Writes.{then_encode-eq-some}
use est.Pkcs7.{oid_data, oid_signed_data}

abbrev pub Parsed : Type 0
Parsed = Option (ℕ × Bytes × Bytes × Bytes)

unfoldable pub element : ℕ → Bytes → Der
element t c =
    let n = length c in
    if ltb n 128
    then some (t ∷ n ∷ c)
    else if ltb n 256
    then some (t ∷ 0x81 ∷ n ∷ c)
    else if ltb n 65536
    then some (t ∷ 0x82 ∷ (n / 256) ∷ (n % 256) ∷ c)
    else none

-- The tag, the content, the element and the rest.
unfoldable pub cut : ℕ → Bytes → ℕ → Bytes → Parsed
cut t header n s =
    if leb n (length s) then some (t, take n s, header ++ take n s, drop n s) else none

-- The eight bytes of a 64-bit number.
unfoldable pub word : ℕ → Bytes
word n =
    (n / 2 ^ 56 % 256)
    ∷ (n / 2 ^ 48 % 256)
    ∷ (n / 2 ^ 40 % 256)
    ∷ (n / 2 ^ 32 % 256)
    ∷ (n / 2 ^ 24 % 256)
    ∷ (n / 2 ^ 16 % 256)
    ∷ (n / 2 ^ 8 % 256)
    ∷ (n % 256)
    ∷ []

unfoldable pub parse_longer : ℕ → ℕ → ℕ → Bytes → Parsed
parse_longer t l a [] = none
parse_longer t l a (b ∷ s) = if l == 0x82 then cut t (t ∷ l ∷ a ∷ b ∷ []) (a * 256 + b) s else none

unfoldable pub parse_long : ℕ → ℕ → Bytes → Parsed
parse_long t l [] = none
parse_long t l (a ∷ s) = if l == 0x81 then cut t (t ∷ l ∷ a ∷ []) a s else parse_longer t l a s

unfoldable pub parse : Bytes → Parsed
parse [] = none
parse (t ∷ []) = none
parse (t ∷ l ∷ s) = if ltb l 128 then cut t (t ∷ l ∷ []) l s else parse_long t l s

take-append : (c rest : Bytes) → take (length c) (c ++ rest) ≡ c
take-append [] rest = refl
take-append (x ∷ c) rest = ap (λ r. x ∷ r) (take-append c rest)

drop-append : (c rest : Bytes) → drop (length c) (c ++ rest) ≡ rest
drop-append [] rest = refl
drop-append (x ∷ c) rest = drop-append c rest

cut-append :
    (t : ℕ) (header : Bytes) (n : ℕ) (c rest : Bytes)
    → n ≡ length c
    → cut t header n (c ++ rest) ≡ some (t, c, header ++ c, rest)
unfolding cut
cut-append t header n c rest e =
    let fits : leb (length c) (length (c ++ rest)) ≡ true =
      le→leb _ _ (omega (arith, length-append c rest)) in
    rw (e, fits, take-append, drop-append)

-- An element has one of three headers.
pub parse-element :
    (t : ℕ) (c d rest : Bytes) → element t c ≡ some d → parse (d ++ rest) ≡ some (t, c, d, rest)
unfolding element parse parse_long parse_longer
parse-element t c d rest e = elim (Bool-cases (ltb (length c) 128)) [
  | inl short ↦
      let shape : t ∷ length c ∷ c ≡ d = some-injective _ _ (rw short at e) in
      subst (λ d. parse (d ++ rest) ≡ some (t, c, d, rest)) shape
        (rw (short, parse) (cut-append t (t ∷ length c ∷ []) (length c) c rest refl))
  | inr n128 ↦ elim (Bool-cases (ltb (length c) 256)) [
    | inl byte ↦
        let shape : t ∷ 0x81 ∷ length c ∷ c ≡ d = some-injective _ _ (rw (n128, byte) at e) in
        subst (λ d. parse (d ++ rest) ≡ some (t, c, d, rest)) shape
          (cut-append t (t ∷ 0x81 ∷ length c ∷ []) (length c) c rest refl)
    | inr n256 ↦ elim (Bool-cases (ltb (length c) 65536)) [
      | inl two ↦
          let a = length c / 256 in
          let b = length c % 256 in
          let shape : t ∷ 0x82 ∷ a ∷ b ∷ c ≡ d = some-injective _ _ (rw (n128, n256, two) at e) in
          subst (λ d. parse (d ++ rest) ≡ some (t, c, d, rest)) shape
            (cut-append t (t ∷ 0x82 ∷ a ∷ b ∷ []) (a * 256 + b) c rest (omega arith))
      | inr n65536 ↦ cc (rw (n128, n256, n65536) at e)
    ]
  ]
]

unfoldable pub read_asn1 : Bytes → ℕ → Option (Bytes × Bytes)
read_asn1 s t = elim (parse s) [
  | none ↦ none
  | some (t', c, d, rest) ↦ if t' == t then some (c, rest) else none
]

unfoldable pub read_asn1_element : Bytes → ℕ → Option (Bytes × Bytes)
read_asn1_element s t = elim (parse s) [
  | none ↦ none
  | some (t', c, d, rest) ↦ if t' == t then some (d, rest) else none
]

unfoldable pub read_optional_asn1 : Bytes → ℕ → Option (Option Bytes × Bytes)
read_optional_asn1 s t = elim (parse s) [
  | none ↦ if is_empty s then some (none, s) else none
  | some (t', c, d, rest) ↦ if t' == t then some (some c, rest) else some (none, s)
]

-- The two identifiers of PKCS #7.
unfoldable pub oid_content : ObjectIdentifier → Option Bytes
oid_content o =
    if oid_eq o oid_data
    then some (0x2a ∷ 0x86 ∷ 0x48 ∷ 0x86 ∷ 0xf7 ∷ 0x0d ∷ 1 ∷ 7 ∷ 1 ∷ [])
    else if oid_eq o oid_signed_data
    then some (0x2a ∷ 0x86 ∷ 0x48 ∷ 0x86 ∷ 0xf7 ∷ 0x0d ∷ 1 ∷ 7 ∷ 2 ∷ [])
    else none

unfoldable pub oid_of_content : Bytes → Option ObjectIdentifier
oid_of_content c =
    if str_eq c (0x2a ∷ 0x86 ∷ 0x48 ∷ 0x86 ∷ 0xf7 ∷ 0x0d ∷ 1 ∷ 7 ∷ 1 ∷ [])
    then some oid_data
    else if str_eq c (0x2a ∷ 0x86 ∷ 0x48 ∷ 0x86 ∷ 0xf7 ∷ 0x0d ∷ 1 ∷ 7 ∷ 2 ∷ [])
    then some oid_signed_data
    else none

pub oid_of_content-oid_content :
    (o : ObjectIdentifier) {c : Bytes} → oid_content o ≡ some c → oid_of_content c ≡ some o
unfolding oid_content oid_of_content str_eq
oid_of_content-oid_content o {c} e = elim (Bool-cases (oid_eq o oid_data)) [
  | inl first ↦
      subst (λ c. oid_of_content c ≡ some o) (some-injective _ _ (rw first at e))
        (rw ((oid_eq_iff o oid_data).0 first))
  | inr more ↦ elim (Bool-cases (oid_eq o oid_signed_data)) [
    | inl second ↦
        subst (λ c. oid_of_content c ≡ some o) (some-injective _ _ (rw (more, second) at e))
          (rw ((oid_eq_iff o oid_signed_data).0 second))
    | inr none_left ↦ cc (rw (more, none_left) at e)
  ]
]

-- One byte for a small number, and nine for any other: the sign and 64 bits.
unfoldable pub int_content : ℤ → Bytes
int_content (pos n) = if ltb n 128 then n ∷ [] else 0 ∷ word n
int_content (negsuc n) = 255 ∷ word n

unfoldable pub int_of_content : Bytes → Option ℤ
int_of_content (n ∷ []) = some (pos n)
int_of_content (s ∷ a ∷ b ∷ c ∷ d ∷ e ∷ f ∷ g ∷ h ∷ []) =
    let n =
      a * 2 ^ 56 + b * 2 ^ 48 + c * 2 ^ 40 + d * 2 ^ 32 + e * 2 ^ 24 + f * 2 ^ 16 + g * 2 ^ 8 + h in
    if s == 0 then some (pos n) else some (negsuc n)
int_of_content _ = none

pub int_of_content-int_content : (z : ℤ) → IsInt64 z → int_of_content (int_content z) ≡ some z
unfolding int_content int_of_content word
int_of_content-int_content (pos n) h = elim (Bool-cases (ltb n 128)) [
  | inl small ↦ rw small
  | inr large ↦ rw large (ap (λ k. some (pos k)) (omega arith))
]
int_of_content-int_content (negsuc n) h = ap (λ k. some (negsuc k)) (omega arith)

unfoldable pub or_empty : Der → Bytes
or_empty none = []
or_empty (some d) = d

unfoldable pub int64_element : ℤ → Bytes
unfolding int_content word element or_empty
int64_element z = or_empty (element 2 (int_content z))

pub int64_element-eq : (z : ℤ) → element 2 (int_content z) ≡ some (int64_element z)
unfolding int64_element
int64_element-eq (pos n) = ground arith
int64_element-eq (negsuc n) = refl

unfoldable pub oid_element : ObjectIdentifier → Der
unfolding oid_content element
oid_element o = then_encode (oid_content o) (element 6)

unfoldable pub read_object_identifier : Bytes → Option (ObjectIdentifier × Bytes)
read_object_identifier s = elim (read_asn1 s 6) [
  | none ↦ none
  | some (c, rest) ↦ elim (oid_of_content c) [ none ↦ none | some o ↦ some (o, rest) ]
]

unfoldable pub read_int64 : Bytes → ℕ → Option (ℤ × Bytes)
read_int64 s t = elim (read_asn1 s t) [
  | none ↦ none
  | some (c, rest) ↦ elim (int_of_content c) [ none ↦ none | some z ↦ some (z, rest) ]
]

-- What `r` holds, with `d` behind it.
unfoldable pub append_result : Result Bytes → Der → Result Bytes
append_result (err e) d = err e
append_result (ok p) none = err (new [])
append_result (ok p) (some d) = ok (p ++ d)

pub value-append_result : (r : Result Bytes) (d : Der) → value (append_result r d) ≡ value r <+> d
unfolding append_result
value-append_result (err e) d = refl
value-append_result (ok p) none = refl
value-append_result (ok p) (some d) = refl

-- The tests' cryptobyte: a builder is what it holds.
abbrev pub der_cryptobyte : Cryptobyte
der_cryptobyte = record {
  Tag = ℕ;
  sequence = 0x30;
  set = 0x31;
  integer = 2;
  utf8_string = 12;
  tag = λ n. n;
  context_specific = λ t. t + 0x80;
  constructed = λ t. t + 0x20;
  Builder = Result Bytes;
  empty = ok [];
  set_error = λ b e. err e;
  add_bytes = λ b v. append_result b (some v);
  add_asn1 = λ b t f. append_result b (then_encode (value (f (ok []))) (element t));
  add_asn1_object_identifier = λ b o. append_result b (oid_element o);
  add_asn1_int64 = λ b n. append_result b (some (int64_element n));
  add_asn1_boolean = λ b v. append_result b (some (1 ∷ 1 ∷ (if v then 255 else 0) ∷ []));
  add_asn1_octet_string = λ b v. append_result b (element 4 v);
  bytes = λ b. b;
  read_asn1 = read_asn1;
  read_asn1_element = read_asn1_element;
  read_asn1_object_identifier = read_object_identifier;
  read_asn1_int64_with_tag = read_int64;
  read_optional_asn1 = read_optional_asn1;
}
