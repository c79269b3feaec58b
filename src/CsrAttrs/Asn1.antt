-- ===== src/CsrAttrs/Asn1.antt =====
-- The ASN.1 structures of RFC 7030 and RFC 9908 that `Encode` of internal/csrattrs writes, with the
-- types of the attributes as numbers.
use est.Common.{
  pos, int_eq, Bool, true, false, not, List, [], ◌∷◌, map, Option, none, some, Bytes, is_empty,
  Result, ok, err, if◌then◌else◌, ObjectIdentifier,
}
use est.Cryptobyte.{Cryptobyte, IsLawful, Der, ◌<+>◌, then_encode}
use est.Cryptobyte.Writes.{node}
use est.CsrAttrs.{KeyAlgorithm, Extension, Rdn, TemplateExtension, Template, Options}
use est.CsrAttrs.Oid.{parse_oid, decode_hex}
use est.CsrAttrs.Encode.{PkixExtension}

-- The attribute types of RFC 2985 and RFC 9908.
abbrev pub challenge_password_type : ObjectIdentifier
challenge_password_type = map pos (1 ∷ 2 ∷ 840 ∷ 113549 ∷ 1 ∷ 9 ∷ 7 ∷ [])

abbrev pub extension_req_type : ObjectIdentifier
extension_req_type = map pos (1 ∷ 2 ∷ 840 ∷ 113549 ∷ 1 ∷ 9 ∷ 14 ∷ [])

abbrev pub info_template_type : ObjectIdentifier
info_template_type = map pos (1 ∷ 2 ∷ 840 ∷ 113549 ∷ 1 ∷ 9 ∷ 16 ∷ 2 ∷ 61 ∷ [])

abbrev pub extension_req_template_type : ObjectIdentifier
extension_req_template_type = map pos (1 ∷ 2 ∷ 840 ∷ 113549 ∷ 1 ∷ 9 ∷ 16 ∷ 2 ∷ 62 ∷ [])

-- An extension with its identifier and its bytes, if both texts can be read.
abbrev pub extension_of : Extension → Option PkixExtension
extension_of e = elim (parse_oid e.oid) [
  | err x ↦ none
  | ok oid ↦ elim (decode_hex e.value_hex) [
    | none ↦ none
    | some v ↦ some (record { id = oid; critical = e.critical; value = v })
  ]
]

abbrev pub extensions_of : List Extension → Option (List PkixExtension)
extensions_of [] = some []
extensions_of (e ∷ exts) = elim (extension_of e) [
  | none ↦ none
  | some x ↦ elim (extensions_of exts) [ none ↦ none | some xs ↦ some (x ∷ xs) ]
]

-- The extensions with their values, if every one has a value.
abbrev pub with_values : List TemplateExtension → Option (List Extension)
with_values [] = some []
with_values (e ∷ exts) = elim e.value_hex [
  | none ↦ none
  | some v ↦ elim (with_values exts) [
    | none ↦ none
    | some full ↦ some (record { oid = e.oid; critical = e.critical; value_hex = v } ∷ full)
  ]
]

abbrev pub nothing : Der
nothing = some []

abbrev pub when : Bool → Der → Der
when true d = d
when false d = nothing

abbrev pub each {ℓ} : {A : Type ℓ} → (A → Der) → List A → Der
each f [] = nothing
each f (x ∷ xs) = f x <+> each f xs

abbrev pub optional {ℓ} : {A : Type ℓ} → (A → Der) → Option A → Der
optional f none = nothing
optional f (some x) = f x

module _ {C : Cryptobyte} (L : IsLawful C) (marshal : List PkixExtension → Result Bytes) where
  -- An OBJECT IDENTIFIER, if the dotted text is one.
  abbrev pub object_identifier : Bytes → Der
  object_identifier dotted = elim (parse_oid dotted) [ ok oid ↦ L.oid_element oid | err e ↦ none ]

  -- Attribute { type, values SET OF }, with the type as a number or as a dotted text
  abbrev pub attribute_of : ObjectIdentifier → Der → Der
  attribute_of oid values = node L C.sequence (L.oid_element oid <+> node L C.set values)

  abbrev pub attribute : Bytes → Der → Der
  attribute oid values = node L C.sequence (object_identifier oid <+> node L C.set values)

  -- The curve, else the size of the modulus, else no value: the SET is empty then, which RFC 7030
  -- does not allow.
  abbrev pub key_algorithm_attribute : KeyAlgorithm → Der
  key_algorithm_attribute ka = attribute ka.oid (
      if not (is_empty ka.curve_oid)
      then object_identifier ka.curve_oid
      else if not (int_eq ka.rsa_modulus_bits (pos 0))
      then some (L.int64_element ka.rsa_modulus_bits)
      else nothing)

  -- id-ExtensionReq with Extensions
  abbrev pub extension_req_of : Option (List PkixExtension) → Der
  extension_req_of none = none
  extension_req_of (some xs) = elim (marshal xs) [
    | ok der ↦ attribute_of extension_req_type (some der)
    | err e ↦ none
  ]

  abbrev pub extension_req_attribute : List Extension → Der
  extension_req_attribute exts = extension_req_of (extensions_of exts)

  abbrev pub extension_value : Bytes → Der
  extension_value hex = then_encode (decode_hex hex) L.octet_string_element

  -- ExtensionTemplate { extnID, critical DEFAULT FALSE, extnValue OPTIONAL }
  abbrev pub extension_template : TemplateExtension → Der
  extension_template e = node L C.sequence (
      (object_identifier e.oid <+> when e.critical (some (L.boolean_element true)))
      <+> optional extension_value e.value_hex)

  -- { type, value OPTIONAL } in a SET
  abbrev pub rdn_template : Rdn → Der
  rdn_template rdn = node L C.set (
      node L C.sequence
        (object_identifier rdn.oid <+> optional (λ v. node L C.utf8_string (some v)) rdn.value))

  abbrev pub subject_pk_info_template : KeyAlgorithm → Der
  subject_pk_info_template ka = node L (C.constructed (C.context_specific (C.tag 0))) (
      node L C.sequence (
        object_identifier ka.oid
        <+> when (not (is_empty ka.curve_oid)) (object_identifier ka.curve_oid)))

  -- RFC 9908: full values if every value is there, else a template.
  abbrev pub required_or_template : List TemplateExtension → Option (List Extension) → Der
  required_or_template exts (some full) = extension_req_attribute full
  required_or_template exts none =
      attribute_of extension_req_template_type (node L C.sequence (each extension_template exts))

  abbrev pub extension_requirements : List TemplateExtension → Der
  extension_requirements [] = nothing
  extension_requirements (e ∷ exts) = required_or_template (e ∷ exts) (with_values (e ∷ exts))

  -- CertificationRequestInfoTemplate { version, subject, subjectPKInfo [0], attributes [1] }
  abbrev pub template_value : Template → Der
  template_value t = node L C.sequence (
      ((some (L.int64_element (pos 0))
          <+> when (not (is_empty t.subject)) (node L C.sequence (each rdn_template t.subject)))
        <+> optional subject_pk_info_template t.key_type)
      <+> node L (C.constructed (C.context_specific (C.tag 1)))
          (extension_requirements t.extensions))

  -- CsrAttrs ::= SEQUENCE OF AttrOrOID
  abbrev pub csr_attrs : Options → Der
  csr_attrs opts =
      let exts = opts.required_extensions in
      node L C.sequence (
        (((when opts.challenge_password (L.oid_element challenge_password_type)
              <+> optional key_algorithm_attribute opts.key_algorithm)
            <+> when (not (is_empty exts)) (extension_req_attribute exts))
          <+> each object_identifier opts.extra_oids)
        <+> optional (λ t. attribute_of info_template_type (template_value t)) opts.template)
