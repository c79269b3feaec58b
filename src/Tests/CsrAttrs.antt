-- ===== src/Tests/CsrAttrs.antt =====
-- Attributes that a server asks for.
use est.Common.{
  arith, ◌≡◌, refl, pos, int_eq, false, [], ◌∷◌, none, some, Bytes, ascii, List, Result, ok, err,
  new, oid_eq,
}
use est.CsrAttrs.Oid.Dotted.{dotted, parse_oid-dotted}
use est.CsrAttrs.{
  KeyAlgorithm, Options, validate_options, validate_key_algorithm, validate_key_type,
  is_empty_options,
}
use est.CsrAttrs.Oid.{
  parse_oid, parse_fields, split_dots, atoi, unsigned, digits_value, in_range, negative,
}
use est.CsrAttrs.Encode.{
  PkixExtension, encode_csr_attrs, add_csr_attrs, add_each, add_optional, add_when, add_oid,
  add_attribute, add_key_algorithm_attribute,
}
use est.Tests.Der.{der_cryptobyte, element, oid_element, oid_content, append_result}

-- No extension is asked for, so nothing is marshalled.
abbrev marshal : List PkixExtension → Result Bytes
marshal exts = err (new [])

abbrev key_algorithm : KeyAlgorithm
key_algorithm = record {
  oid = ascii "1.2.840.113549.1.7.1";
  curve_oid = ascii "1.2.840.113549.1.7.2";
  rsa_modulus_bits = pos 0;
}

abbrev options : Options
options = record {
  challenge_password = false;
  key_algorithm = some key_algorithm;
  required_extensions = [];
  extra_oids = ascii "1.2.840.113549.1.7.2" ∷ [];
  template = none;
}

abbrev options_der : Bytes
options_der =
    48 ∷ 37 ∷ 48 ∷ 24 ∷ 6 ∷ 9 ∷ 42 ∷ 134 ∷ 72 ∷ 134 ∷ 247 ∷ 13 ∷ 1 ∷ 7 ∷ 1 ∷ 49 ∷ 11 ∷ 6 ∷ 9 ∷ 42
    ∷ 134 ∷ 72 ∷ 134 ∷ 247 ∷ 13 ∷ 1 ∷ 7 ∷ 2 ∷ 6 ∷ 9 ∷ 42 ∷ 134 ∷ 72 ∷ 134 ∷ 247 ∷ 13 ∷ 1 ∷ 7 ∷ 2
    ∷ []

parse_oid_signed_data :
    parse_oid (ascii "1.2.840.113549.1.7.2")
    ≡ ok (pos 1 ∷ pos 2 ∷ pos 840 ∷ pos 113549 ∷ pos 1 ∷ pos 7 ∷ pos 2 ∷ [])
unfolding ascii parse_oid parse_fields split_dots atoi unsigned digits_value in_range negative
parse_oid_signed_data = refl

encode_options : encode_csr_attrs der_cryptobyte marshal options ≡ ok options_der
unfolding encode_csr_attrs validate_options validate_key_algorithm validate_key_type int_eq
    is_empty_options ascii parse_oid parse_fields split_dots atoi unsigned digits_value in_range
    negative add_csr_attrs add_each add_optional add_when add_oid add_attribute
    add_key_algorithm_attribute element oid_element oid_content oid_eq append_result
encode_options = refl

parse_oid-dotted_example :
    parse_oid (dotted 1 (840 ∷ 10045 ∷ [])) ≡ ok (pos 1 ∷ pos 840 ∷ pos 10045 ∷ [])
parse_oid-dotted_example =
    parse_oid-dotted 1 (840 ∷ 10045 ∷ []) (ground arith, (ground arith, (ground arith, tt)))
