-- ===== src/CsrAttrs/Values.antt =====
-- The texts and values of internal/csrattrs are read as CsrAttrs/Asn1 reads them.
use est.Common.{
  ◌≡◌, refl, arith, Option-cases, Result-cases, inl, inr, List, [], ◌∷◌, map, none, some, all,
  ascii, value, ok, if◌then◌else◌,
}
use est.CsrAttrs.{Extension, TemplateExtension}
use est.CsrAttrs.Oid.{
  parse_oid, parse_fields, split_dots, atoi, unsigned, digits_value, in_range, negative, decode_hex,
}
use est.CsrAttrs.Encode.{
  oid_challenge_password, oid_extension_req, oid_certification_request_info_template,
  oid_extension_req_template, pkix_extension, pkix_extensions, full_extension, has_value,
}
use est.CsrAttrs.Asn1.{
  challenge_password_type, extension_req_type, info_template_type, extension_req_template_type,
  extension_of, extensions_of, with_values,
}

pub parse_oid-challenge_password : parse_oid oid_challenge_password ≡ ok challenge_password_type
unfolding ascii parse_oid parse_fields split_dots atoi unsigned digits_value in_range negative
parse_oid-challenge_password = refl

pub parse_oid-extension_req : parse_oid oid_extension_req ≡ ok extension_req_type
unfolding ascii parse_oid parse_fields split_dots atoi unsigned digits_value in_range negative
parse_oid-extension_req = refl

pub parse_oid-info_template :
    parse_oid oid_certification_request_info_template ≡ ok info_template_type
unfolding ascii parse_oid parse_fields split_dots atoi unsigned digits_value in_range negative
parse_oid-info_template = refl

pub parse_oid-extension_req_template :
    parse_oid oid_extension_req_template ≡ ok extension_req_template_type
unfolding ascii parse_oid parse_fields split_dots atoi unsigned digits_value in_range negative
parse_oid-extension_req_template = refl

value-pkix_extension : (e : Extension) → value (pkix_extension e) ≡ extension_of e
unfolding pkix_extension
value-pkix_extension e = elim (Result-cases (parse_oid e.oid)) [
  | inr (x, bad) ↦ ground (arith, bad)
  | inl (oid, read) ↦ elim (Option-cases (decode_hex e.value_hex)) [
    | inl bad ↦ ground (arith, read, bad)
    | inr (v, decoded) ↦ ground (arith, read, decoded)
  ]
]

pub value-pkix_extensions :
    (exts : List Extension) → value (pkix_extensions exts) ≡ extensions_of exts
unfolding pkix_extensions
value-pkix_extensions [] = refl
value-pkix_extensions (e ∷ exts) =
    ground (arith, value-pkix_extension e, value-pkix_extensions exts)

pub with_values_lem :
    (exts : List TemplateExtension)
    → with_values exts ≡ (if all has_value exts then some (map full_extension exts) else none)
unfolding full_extension all
with_values_lem [] = refl
with_values_lem (e ∷ exts) = elim (Option-cases e.value_hex) [
  | inl missing ↦ ground (arith, missing)
  | inr (v, there) ↦ ground (arith, there, with_values_lem exts)
]
