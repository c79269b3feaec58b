-- ===== src/CsrAttrs/Oid/Dotted.antt =====
-- `parseOID` of internal/csrattrs/csrattrs.go reads back dotted decimals.
use est.Common.{
  ℕ, zero, suc, ◌+◌, ◌-◌, ◌*◌, ◌/◌, ◌%◌, ◌^◌, ◌≤◌, ◌<◌, ◌≡◌, refl, sym, ap, subst, ◌∙◌, arith, pos,
  ObjectIdentifier, List, [], ◌∷◌, ◌++◌, map, some, Bytes, All, ltb, ok, ◌==◌, Bool-cases, inl, inr,
  true, false,
}
use est.Decimal.{decimal_onto, decimal}
use est.CsrAttrs.Oid.{
  add_to_first, split_dots, digits_value, unsigned, in_range, atoi, parse_fields, parse_oid,
}

-- The arcs in decimal, with dots between them.
abbrev pub dotted : ℕ → List ℕ → Bytes
dotted n [] = decimal n
dotted n (m ∷ arcs) = decimal n ++ (b'.' ∷ dotted m arcs)

abbrev IsDigit : ℕ → Type 0
IsDigit c = (b'0' ≤ c) × (c ≤ b'9')

digits_value-decimal_onto :
    (fuel n : ℕ) (text : Bytes)
    → n < fuel
    → digits_value 0 (decimal_onto fuel n text) ≡ digits_value n text
unfolding digits_value
digits_value-decimal_onto zero n text few = absurd (omega arith)
digits_value-decimal_onto (suc fuel) n text few = elim (Bool-cases (ltb n 10)) [
  | inl small ↦ ground (arith, small)
  | inr big ↦
      let digit = b'0' + n % 10 in
      let whole : n / 10 * 10 + (digit - b'0') ≡ n = omega arith in
      let rest : digits_value (n / 10) (digit ∷ text) ≡ digits_value n text =
        ground (arith, whole) in
      ground (
        arith,
        big,
        rest,
        digits_value-decimal_onto fuel (n / 10) (digit ∷ text) (ground (arith, big, few)),
      )
]

-- Digits in front of digits, and at least one.
decimal_onto-All :
    (fuel n : ℕ) (text : Bytes) → All IsDigit text → All IsDigit (decimal_onto fuel n text)
decimal_onto-All zero n text h = h
decimal_onto-All (suc fuel) n text h = elim (Bool-cases (ltb n 10)) [
  | inl small ↦ rw (small) ((omega arith, ground (arith, small)), h)
  | inr big ↦
      rw (big)
        (decimal_onto-All fuel (n / 10) ((b'0' + n % 10) ∷ text) ((omega arith, omega arith), h))
]

decimal_onto-cons :
    (fuel n : ℕ) (text : Bytes)
    → n < fuel
    → (c : ℕ) × (rest : Bytes) × (decimal_onto fuel n text ≡ c ∷ rest)
decimal_onto-cons zero n text few = absurd (omega arith)
decimal_onto-cons (suc fuel) n text few = elim (Bool-cases (ltb n 10)) [
  | inl small ↦ (b'0' + n, text, rw small refl)
  | inr big ↦
      let (c, rest, e) =
        decimal_onto-cons fuel (n / 10) ((b'0' + n % 10) ∷ text) (ground (arith, big, few)) in
      (c, rest, rw big e)
]

-- `strconv.Atoi` takes digits without a sign whose value fits an int64.
atoi-digits :
    (c : ℕ) (rest : Bytes) (n : ℕ)
    → IsDigit c
    → digits_value 0 (c ∷ rest) ≡ some n
    → n < 2 ^ 63
    → atoi (c ∷ rest) ≡ some (pos n)
unfolding atoi unsigned in_range
atoi-digits c rest n (low, high) read small =
    let no_minus : (c == b'-') ≡ false = ground (arith, low) in
    let no_plus : (c == b'+') ≡ false = ground (arith, low) in
    let fits : ltb n (2 ^ 63) ≡ true = ground (arith, small) in
    rw (no_minus, no_plus, read, fits) refl

atoi-decimal : (n : ℕ) → n < 2 ^ 63 → atoi (decimal n) ≡ some (pos n)
unfolding digits_value
atoi-decimal n small =
    let (c, rest, e) = decimal_onto-cons (suc n) n [] (omega arith) in
    let read : digits_value 0 (decimal n) ≡ some n =
      digits_value-decimal_onto (suc n) n [] (omega arith) in
    let digits : All IsDigit (decimal n) = decimal_onto-All (suc n) n [] tt in
    let (digit, _) = subst (All IsDigit) e digits in
    ap atoi e ∙ atoi-digits c rest n digit (ap (digits_value 0) (sym e) ∙ read) small

-- A text without a dot is one field.
split_dots-digits : (text : Bytes) → All IsDigit text → split_dots text ≡ text ∷ []
unfolding split_dots add_to_first
split_dots-digits [] h = refl
split_dots-digits (c ∷ text) (digit, digits) = ground (arith, digit, split_dots-digits text digits)

split_dots-append :
    (text more : Bytes)
    → All IsDigit text
    → split_dots (text ++ (b'.' ∷ more)) ≡ text ∷ split_dots more
unfolding split_dots add_to_first
split_dots-append [] more h = refl
split_dots-append (c ∷ text) more (digit, digits) =
    ground (arith, digit, split_dots-append text more digits)

parse_fields-cons :
    (f : Bytes) (fields : List Bytes) (n : ℕ) {oid : ObjectIdentifier}
    → atoi f ≡ some (pos n)
    → parse_fields fields ≡ ok oid
    → parse_fields (f ∷ fields) ≡ ok (pos n ∷ oid)
unfolding parse_fields
parse_fields-cons f fields n read rest = rw (read, rest) refl

-- An OID in dotted decimal whose arcs fit an int64 is read back arc by arc.
pub parse_oid-dotted :
    (n : ℕ) (arcs : List ℕ)
    → All (λ m. m < 2 ^ 63) (n ∷ arcs)
    → parse_oid (dotted n arcs) ≡ ok (map pos (n ∷ arcs))
unfolding parse_oid parse_fields
parse_oid-dotted n [] (small, h) =
    let text = decimal n in
    ap parse_fields (split_dots-digits text (decimal_onto-All (suc n) n [] tt))
    ∙ parse_fields-cons text [] n (atoi-decimal n small) refl
parse_oid-dotted n (m ∷ arcs) (small, h) =
    let text = decimal n in
    ap parse_fields (split_dots-append text (dotted m arcs) (decimal_onto-All (suc n) n [] tt))
    ∙ parse_fields-cons text (split_dots (dotted m arcs)) n (atoi-decimal n small)
        (parse_oid-dotted m arcs h)
