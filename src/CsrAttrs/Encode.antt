-- ===== src/CsrAttrs/Encode.antt =====
-- `Encode` of internal/csrattrs/csrattrs.go and the functions that write its parts, over any
-- cryptobyte. A function that takes the builder first in Go takes it last here.
use est.Common.{
  pos, int_eq, Bool, true, false, not, List, [], ◌∷◌, map, Option, none, some, Bytes, ascii,
  is_empty, is_some, all, ObjectIdentifier, Result, ok, err, new, wrap, context, require, ◌>>=◌,
  ◌>>◌, if◌then◌else◌,
}
use est.Cryptobyte.{Cryptobyte}
use est.CsrAttrs.{
  KeyAlgorithm, Extension, Rdn, TemplateExtension, Template, Options, validate_options,
  is_empty_options,
}
use est.CsrAttrs.Oid.{parse_oid, decode_hex}

abbrev pub oid_challenge_password : Bytes
oid_challenge_password = ascii "1.2.840.113549.1.9.7"

abbrev pub oid_extension_req : Bytes
oid_extension_req = ascii "1.2.840.113549.1.9.14"

abbrev pub oid_certification_request_info_template : Bytes
oid_certification_request_info_template = ascii "1.2.840.113549.1.9.16.2.61"

abbrev pub oid_extension_req_template : Bytes
oid_extension_req_template = ascii "1.2.840.113549.1.9.16.2.62"

-- `pkix.Extension`
pub record PkixExtension : Type 0 where
  pub id : ObjectIdentifier
  pub critical : Bool
  pub value : Bytes

-- `hex.DecodeString` with the text around its error.
abbrev pub decode_value : Bytes → Result Bytes
decode_value hex =
    context (ascii "invalid value_hex") (require (decode_hex hex) (new (ascii "encoding/hex")))

-- One round of the loop of `marshalExtensions`.
unfoldable pub pkix_extension : Extension → Result PkixExtension
pkix_extension e = context (ascii "extension") (do
  oid ← parse_oid e.oid
  value ← decode_value e.value_hex
  ok (record { id = oid; critical = e.critical; value = value }))

unfoldable pub pkix_extensions : List Extension → Result (List PkixExtension)
pkix_extensions [] = ok []
pkix_extensions (e ∷ exts) = do x ← pkix_extension e; xs ← pkix_extensions exts; ok (x ∷ xs)

-- The value of a template's extension, where there is one.
unfoldable pub full_extension : TemplateExtension → Extension
full_extension e = record {
  oid = e.oid;
  critical = e.critical;
  value_hex = elim e.value_hex [ none ↦ [] | some v ↦ v ];
}

abbrev pub has_value : TemplateExtension → Bool
has_value e = is_some e.value_hex

-- `marshal` is `asn1.Marshal` on a `[]pkix.Extension`.
module _ (C : Cryptobyte) (marshal : List PkixExtension → Result Bytes) where
  open C use {Builder, sequence, set, add_asn1}

  -- A loop that calls a writer for each item.
  unfoldable pub add_each {ℓ} : {A : Type ℓ} → (A → Builder → Builder) → List A → Builder → Builder
  add_each f [] b = b
  add_each f (x ∷ xs) b = add_each f xs (f x b)

  -- `if p != nil { f(b, *p) }`
  unfoldable pub add_optional {ℓ} :
      {A : Type ℓ} → (A → Builder → Builder) → Option A → Builder → Builder
  add_optional f none b = b
  add_optional f (some x) b = f x b

  -- `if c { f(b) }`
  unfoldable pub add_when : Bool → (Builder → Builder) → Builder → Builder
  add_when true f b = f b
  add_when false f b = b

  unfoldable pub add_oid : Bytes → Builder → Builder
  add_oid dotted b = elim (parse_oid dotted) [
    | ok oid ↦ C.add_asn1_object_identifier b oid
    | err e ↦ C.set_error b e
  ]

  unfoldable pub add_attribute : Bytes → Option (Builder → Builder) → Builder → Builder
  add_attribute oid add_value b =
      add_asn1 b sequence (λ b. add_asn1 (add_oid oid b) set (add_optional (λ f. f) add_value))

  unfoldable pub add_key_algorithm_attribute : KeyAlgorithm → Builder → Builder
  add_key_algorithm_attribute ka b =
      if not (is_empty ka.curve_oid)
      then add_attribute ka.oid (some (add_oid ka.curve_oid)) b
      else if not (int_eq ka.rsa_modulus_bits (pos 0))
      then add_attribute ka.oid (some (λ b. C.add_asn1_int64 b ka.rsa_modulus_bits)) b
      else add_attribute ka.oid none b

  unfoldable pub marshal_extensions : List Extension → Result Bytes
  marshal_extensions exts = pkix_extensions exts >>= marshal

  unfoldable pub add_extension_req_attribute : List Extension → Builder → Builder
  add_extension_req_attribute exts b = elim (marshal_extensions exts) [
    | err e ↦ C.set_error b (wrap (ascii "required_extensions") e)
    | ok der ↦ add_attribute oid_extension_req (some (λ b. C.add_bytes b der)) b
  ]

  -- The value of an extension, from `hex.DecodeString`.
  unfoldable pub add_extension_value : Bytes → Builder → Builder
  add_extension_value hex b = elim (decode_value hex) [
    | err e ↦ C.set_error b e
    | ok v ↦ C.add_asn1_octet_string b v
  ]

  unfoldable pub add_extension_template : TemplateExtension → Builder → Builder
  add_extension_template e b = add_asn1 b sequence (λ b.
      add_optional add_extension_value e.value_hex
        (add_when e.critical (λ b. C.add_asn1_boolean b true) (add_oid e.oid b)))

  unfoldable pub add_extension_req_template_attribute : List TemplateExtension → Builder → Builder
  add_extension_req_template_attribute exts =
      add_attribute oid_extension_req_template
        (some (λ b. add_asn1 b sequence (add_each add_extension_template exts)))

  unfoldable pub add_rdn_value : Bytes → Builder → Builder
  add_rdn_value v b = add_asn1 b C.utf8_string (λ b. C.add_bytes b v)

  unfoldable pub add_rdn : Rdn → Builder → Builder
  add_rdn rdn b =
      add_asn1 b set
        (λ b. add_asn1 b sequence (λ b. add_optional add_rdn_value rdn.value (add_oid rdn.oid b)))

  unfoldable pub add_subject_template : List Rdn → Builder → Builder
  add_subject_template rdns b = add_asn1 b sequence (add_each add_rdn rdns)

  unfoldable pub add_subject_pk_info_template : KeyAlgorithm → Builder → Builder
  add_subject_pk_info_template ka b =
      add_asn1 b (C.constructed (C.context_specific (C.tag 0))) (λ b.
        add_asn1 b sequence
          (λ b. add_when (not (is_empty ka.curve_oid)) (add_oid ka.curve_oid) (add_oid ka.oid b)))

  -- What `addTemplateAttributes` writes between the tags.
  unfoldable pub add_extension_requirements : List TemplateExtension → Builder → Builder
  add_extension_requirements exts b =
      if is_empty exts
      then b
      else if all has_value exts
      then add_extension_req_attribute (map full_extension exts) b
      else add_extension_req_template_attribute exts b

  unfoldable pub add_template_attributes : List TemplateExtension → Builder → Builder
  add_template_attributes exts b =
      add_asn1 b (C.constructed (C.context_specific (C.tag 1))) (add_extension_requirements exts)

  unfoldable pub add_template : Template → Builder → Builder
  add_template t b = add_asn1 b sequence (λ b.
      let b1 = C.add_asn1_int64 b (pos 0) in
      let b2 = add_when (not (is_empty t.subject)) (add_subject_template t.subject) b1 in
      let b3 = add_optional add_subject_pk_info_template t.key_type b2 in
      add_template_attributes t.extensions b3)

  unfoldable pub add_template_attribute : Template → Builder → Builder
  add_template_attribute t =
      add_attribute oid_certification_request_info_template (some (add_template t))

  -- The closure of `Encode`.
  unfoldable pub add_csr_attrs : Options → Builder → Builder
  add_csr_attrs opts b =
      let b1 = add_when opts.challenge_password (add_oid oid_challenge_password) b in
      let b2 = add_optional add_key_algorithm_attribute opts.key_algorithm b1 in
      let exts = opts.required_extensions in
      let b3 = add_when (not (is_empty exts)) (add_extension_req_attribute exts) b2 in
      let b4 = add_each add_oid opts.extra_oids b3 in
      add_optional add_template_attribute opts.template b4

  unfoldable pub encode_csr_attrs : Options → Result Bytes
  encode_csr_attrs opts = do
    validate_options opts
    (if is_empty_options opts
        then ok []
        else context (ascii "csrattrs") (C.bytes (add_asn1 C.empty sequence (add_csr_attrs opts))))
