-- ===== src/Tests/Der/Lawful.antt =====
-- The tests' cryptobyte meets the laws.
use est.Common.{ℕ, ◌+◌, ◌*◌, ◌<◌, ◌≡◌, refl, ap, arith, [], ◌∷◌, ◌++◌, append_assoc, some}
use est.Common.{
  Bytes, length, Bool-cases, Option-cases, take-append-drop, inl, inr, take, drop, ltb, leb, ◌==◌,
  if◌then◌else◌,
}
use mathlib.Core.Option.{some-injective}
use est.Cryptobyte.{IsLawful}
use est.Cryptobyte.Writes.{then_encode-eq-some}
use est.Tests.Der.{
  element, cut, parse_longer, parse_long, parse, parse-element, read_asn1, read_asn1_element,
  read_optional_asn1, oid_content, oid_of_content-oid_content, int_content,
  int_of_content-int_content, int64_element, int64_element-eq, oid_element, read_object_identifier,
  read_int64, value-append_result, der_cryptobyte,
}

pub read_asn1-element :
    (t : ℕ) (c d rest : Bytes) → element t c ≡ some d → read_asn1 (d ++ rest) t ≡ some (c, rest)
unfolding read_asn1
read_asn1-element t c d rest e = rw (parse-element t c d rest e, read_asn1) (ground arith)

cut_front :
    (t x : ℕ) (header : Bytes) (n : ℕ) (s : Bytes) {t' : ℕ} {c d rest : Bytes}
    → cut t (x ∷ header) n s ≡ some (t', c, d, rest)
    → ((x ∷ header) ++ s ≡ d ++ rest) × (0 < length d)
unfolding cut
cut_front t x header n s {d} {rest} h = elim (Bool-cases (leb n (length s))) [
  | inl e ↦
      let found = some-injective _ _ (rw e at h) in
      let d_is : (x ∷ header) ++ take n s ≡ d = ap (λ p. p.2) found in
      let rest_is : drop n s ≡ rest = ap (λ p. p.3) found in
      (rw (← d_is, ← rest_is, append_assoc, take-append-drop n s), rw (← d_is) (omega arith))
  | inr e ↦ cc (rw e at h)
]

parse_longer_front :
    (t l a : ℕ) (s : Bytes) {t' : ℕ} {c d rest : Bytes}
    → parse_longer t l a s ≡ some (t', c, d, rest)
    → (t ∷ l ∷ a ∷ s ≡ d ++ rest) × (0 < length d)
unfolding parse_longer
parse_longer_front t l a [] h = cc
parse_longer_front t l a (b ∷ s) h = elim (Bool-cases (l == 0x82)) [
  | inl e ↦ cut_front t t (l ∷ a ∷ b ∷ []) (a * 256 + b) s (rw e at h)
  | inr e ↦ cc (rw e at h)
]

parse_long_front :
    (t l : ℕ) (s : Bytes) {t' : ℕ} {c d rest : Bytes}
    → parse_long t l s ≡ some (t', c, d, rest)
    → (t ∷ l ∷ s ≡ d ++ rest) × (0 < length d)
unfolding parse_long
parse_long_front t l [] h = cc
parse_long_front t l (a ∷ s) h = elim (Bool-cases (l == 0x81)) [
  | inl e ↦ cut_front t t (l ∷ a ∷ []) a s (rw e at h)
  | inr e ↦ parse_longer_front t l a s (rw e at h)
]

parse_front :
    (s : Bytes) {t : ℕ} {c d rest : Bytes}
    → parse s ≡ some (t, c, d, rest)
    → (s ≡ d ++ rest) × (0 < length d)
unfolding parse
parse_front [] h = cc
parse_front (t ∷ []) h = cc
parse_front (t ∷ l ∷ s) h = elim (Bool-cases (ltb l 128)) [
  | inl e ↦ cut_front t t (l ∷ []) l s (rw e at h)
  | inr e ↦ parse_long_front t l s (rw e at h)
]

pub read_asn1_element_front :
    (s : Bytes) (t : ℕ) {d rest : Bytes}
    → read_asn1_element s t ≡ some (d, rest)
    → (s ≡ d ++ rest) × (0 < length d)
unfolding read_asn1_element
read_asn1_element_front s t h = elim (Option-cases (parse s)) [
  | inl e ↦ cc (rw (e, read_asn1_element) at h)
  | inr ((t', c, d', rest'), e) ↦ ground (arith, h, e, parse_front s e)
]

pub read_asn1_element-element :
    (t : ℕ) (c d rest : Bytes)
    → element t c ≡ some d
    → read_asn1_element (d ++ rest) t ≡ some (d, rest)
unfolding read_asn1_element
read_asn1_element-element t c d rest e =
    rw (parse-element t c d rest e, read_asn1_element) (ground arith)

pub read_optional_asn1-element :
    (t : ℕ) (c d rest : Bytes)
    → element t c ≡ some d
    → read_optional_asn1 (d ++ rest) t ≡ some (some c, rest)
unfolding read_optional_asn1
read_optional_asn1-element t c d rest e =
    rw (parse-element t c d rest e, read_optional_asn1) (ground arith)

unfoldable pub der_cryptobyte-IsLawful : IsLawful der_cryptobyte
unfolding read_asn1_element read_optional_asn1 read_object_identifier read_int64 oid_element
der_cryptobyte-IsLawful = record {
  element = element;
  oid_element = oid_element;
  int64_element = int64_element;
  boolean_element = λ v. 1 ∷ 1 ∷ (if v then 255 else 0) ∷ [];
  octet_string_element = element 4;
  written-empty = refl;
  written-add_bytes = λ b v. value-append_result b (some v);
  written-add_asn1 = λ b t f. value-append_result b _;
  written-add_asn1_object_identifier = λ b o. value-append_result b (oid_element o);
  written-add_asn1_int64 = λ b n. value-append_result b _;
  written-add_asn1_boolean = λ b v. value-append_result b _;
  written-add_asn1_octet_string = λ b v. value-append_result b _;
  written-set_error = λ b e. refl;
  read_asn1-element = read_asn1-element;
  read_asn1_element-element = read_asn1_element-element;
  read_asn1_object_identifier-element = λ o d rest small e.
      let (c, known, whole) = then_encode-eq-some (oid_content o) (element 6) e in
      rw (
        read_asn1-element 6 c d rest whole,
        read_object_identifier,
        oid_of_content-oid_content o known,
      );
  read_asn1_int64_with_tag-element = λ n rest h. rw (
    read_asn1-element 2 (int_content n) _ rest (int64_element-eq n),
    read_int64,
    int_of_content-int_content n h,
  );
  read_optional_asn1-element = read_optional_asn1-element;
  read_asn1_element_front = read_asn1_element_front;
}
