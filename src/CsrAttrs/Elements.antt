-- ===== src/CsrAttrs/Elements.antt =====
-- The functions of internal/csrattrs that write one attribute or template write its ASN.1.
use est.Common.{
  ◌≡◌, ap, subst, ObjectIdentifier, value, Option-cases, pos, int_eq, Bool, true, false, Bool-cases,
  inl, inr, List, [], ◌∷◌, Option, none, some, Bytes, ascii, is_empty, Error, wrap, Result, ok, err,
  ◌>>=◌,
}
use est.Cryptobyte.{Cryptobyte, IsLawful, Der, ◌<+>◌}
use est.Cryptobyte.Writes.{
  node, Writes, Writes-id, Writes-seq, Writes-add_bytes, Writes-add_asn1,
  Writes-add_asn1_object_identifier, Writes-add_asn1_int64, Writes-add_asn1_boolean,
  Writes-add_asn1_octet_string, Writes-set_error,
}
use est.CsrAttrs.{KeyAlgorithm, Extension, Rdn, TemplateExtension}
use est.CsrAttrs.Oid.{parse_oid, decode_hex}
use est.CsrAttrs.Values.{parse_oid-extension_req, value-pkix_extensions}
use est.CsrAttrs.Encode.{
  PkixExtension, oid_extension_req, pkix_extensions, marshal_extensions, add_each, add_optional,
  add_when, add_oid, add_attribute, add_key_algorithm_attribute, add_extension_req_attribute,
  add_extension_value, add_extension_template, add_rdn_value, add_rdn, add_subject_pk_info_template,
}
use est.CsrAttrs.Asn1.{
  extension_req_type, attribute_of, nothing, when, each, optional, object_identifier, attribute,
  key_algorithm_attribute, extension_req_attribute, extension_req_of, extension_value,
  extension_template, rdn_template, subject_pk_info_template,
}

module _ {C : Cryptobyte} (L : IsLawful C) (marshal : List PkixExtension → Result Bytes) where
  pub Writes-add_when :
      (c : Bool) (f : C.Builder → C.Builder) {d : Der}
      → Writes L f d
      → Writes L (add_when C marshal c f) (when c d)
  unfolding add_when
  Writes-add_when true f h = h
  Writes-add_when false f h = Writes-id L

  pub Writes-add_optional {ℓ} :
      {A : Type ℓ} (f : A → C.Builder → C.Builder) (d : A → Der) (o : Option A)
      → ((x : A) → Writes L (f x) (d x))
      → Writes L (add_optional C marshal f o) (optional d o)
  unfolding add_optional
  Writes-add_optional f d none h = Writes-id L
  Writes-add_optional f d (some x) h = h x

  pub Writes-add_each {ℓ} :
      {A : Type ℓ} (f : A → C.Builder → C.Builder) (d : A → Der) (xs : List A)
      → ((x : A) → Writes L (f x) (d x))
      → Writes L (add_each C marshal f xs) (each d xs)
  unfolding add_each
  Writes-add_each f d [] h = Writes-id L
  Writes-add_each f d (x ∷ xs) h = Writes-seq L (f x) _ (h x) (Writes-add_each f d xs h)

  -- A value that is written, or an error.
  pub Writes-result {ℓ} :
      {A : Type ℓ} (r : Result A) (f : A → C.Builder → C.Builder) (g : Error → Error) (d : A → Der)
      → ((x : A) → Writes L (f x) (d x))
      → Writes L
          (λ b. elim r [ ok x ↦ f x b | err e ↦ C.set_error b (g e) ])
          (elim r [ ok x ↦ d x | err e ↦ none ])
  Writes-result (ok x) f g d h = h x
  Writes-result (err e) f g d h = Writes-set_error L (g e)

  pub Writes-add_oid :
      (dotted : Bytes) → Writes L (add_oid C marshal dotted) (object_identifier L marshal dotted)
  unfolding add_oid
  Writes-add_oid dotted =
      Writes-result (parse_oid dotted) (λ oid b. C.add_asn1_object_identifier b oid) (λ e. e)
        L.oid_element (Writes-add_asn1_object_identifier L)

  pub Writes-add_attribute :
      (oid : Bytes) (f : C.Builder → C.Builder) {d : Der}
      → Writes L f d
      → Writes L (add_attribute C marshal oid (some f)) (attribute L marshal oid d)
  unfolding add_attribute add_optional
  Writes-add_attribute oid f h =
      Writes-add_asn1 L _ _
        (Writes-seq L (add_oid C marshal oid) _ (Writes-add_oid oid) (Writes-add_asn1 L _ f h))

  pub object_identifier-ok :
      (dotted : Bytes) (oid : ObjectIdentifier)
      → parse_oid dotted ≡ ok oid
      → object_identifier L marshal dotted ≡ L.oid_element oid
  object_identifier-ok dotted oid e =
      ap (λ (r : Result ObjectIdentifier). elim r [ ok o ↦ L.oid_element o | err x ↦ none ]) e

  -- An attribute whose type is known as a number.
  pub Writes-add_attribute-ok :
      (dotted : Bytes) (oid : ObjectIdentifier) (f : C.Builder → C.Builder) {d : Der}
      → parse_oid dotted ≡ ok oid
      → Writes L f d
      → Writes L (add_attribute C marshal dotted (some f)) (attribute_of L marshal oid d)
  Writes-add_attribute-ok dotted oid f {d} e h =
      let same : attribute L marshal dotted d ≡ attribute_of L marshal oid d =
        ap (λ o. node L C.sequence (o <+> node L C.set d)) (object_identifier-ok dotted oid e) in
      subst (Writes L (add_attribute C marshal dotted (some f))) same
        (Writes-add_attribute dotted f h)

  pub Writes-add_attribute-none :
      (oid : Bytes) → Writes L (add_attribute C marshal oid none) (attribute L marshal oid nothing)
  unfolding add_attribute add_optional
  Writes-add_attribute-none oid = Writes-add_asn1 L _ _ (
      Writes-seq L (add_oid C marshal oid) _ (Writes-add_oid oid)
        (Writes-add_asn1 L _ _ (Writes-id L)))

  pub Writes-add_key_algorithm_attribute :
      (ka : KeyAlgorithm)
      → Writes L (add_key_algorithm_attribute C marshal ka) (key_algorithm_attribute L marshal ka)
  unfolding add_key_algorithm_attribute
  Writes-add_key_algorithm_attribute ka = elim (Bool-cases (is_empty ka.curve_oid)) [
    | inr e ↦
        rw (e, add_key_algorithm_attribute)
          (Writes-add_attribute ka.oid _ (Writes-add_oid ka.curve_oid))
    | inl e ↦ elim (Bool-cases (int_eq ka.rsa_modulus_bits (pos 0))) [
      | inr f ↦
          rw (e, f, add_key_algorithm_attribute)
            (Writes-add_attribute ka.oid _ (Writes-add_asn1_int64 L ka.rsa_modulus_bits))
      | inl f ↦ rw (e, f, add_key_algorithm_attribute) (Writes-add_attribute-none ka.oid)
    ]
  ]

  Writes-extension_req_of :
      (r : Result (List PkixExtension))
      → Writes L
          (λ b. elim (r >>= marshal) [
            | err e ↦ C.set_error b (wrap (ascii "required_extensions") e)
            | ok der ↦ add_attribute C marshal oid_extension_req (some (λ b. C.add_bytes b der)) b
          ])
          (extension_req_of L marshal (value r))
  Writes-extension_req_of (err e) = Writes-set_error L _
  Writes-extension_req_of (ok xs) =
      Writes-result (marshal xs)
        (λ der. add_attribute C marshal oid_extension_req (some (λ b. C.add_bytes b der)))
        (wrap (ascii "required_extensions"))
        (λ der. attribute_of L marshal extension_req_type (some der))
        (λ der.
          Writes-add_attribute-ok oid_extension_req extension_req_type _ parse_oid-extension_req
            (Writes-add_bytes L der))

  pub Writes-add_extension_req_attribute :
      (exts : List Extension)
      → Writes L
          (add_extension_req_attribute C marshal exts)
          (extension_req_attribute L marshal exts)
  unfolding add_extension_req_attribute marshal_extensions
  Writes-add_extension_req_attribute exts =
      subst
        (λ o. Writes L (add_extension_req_attribute C marshal exts) (extension_req_of L marshal o))
        (value-pkix_extensions exts) (Writes-extension_req_of (pkix_extensions exts))

  pub Writes-add_extension_value :
      (hex : Bytes) → Writes L (add_extension_value C marshal hex) (extension_value L marshal hex)
  unfolding add_extension_value
  Writes-add_extension_value hex = elim (Option-cases (decode_hex hex)) [
    | inl bad ↦ rw (bad, add_extension_value) (Writes-set_error L _)
    | inr (v, decoded) ↦ rw (decoded, add_extension_value) (Writes-add_asn1_octet_string L v)
  ]

  pub Writes-add_extension_template :
      (e : TemplateExtension)
      → Writes L (add_extension_template C marshal e) (extension_template L marshal e)
  unfolding add_extension_template
  Writes-add_extension_template e = Writes-add_asn1 L _ _ (
      Writes-seq L
        (λ b.
          add_when C marshal e.critical (λ b. C.add_asn1_boolean b true)
            (add_oid C marshal e.oid b))
        _
        (Writes-seq L (add_oid C marshal e.oid) _ (Writes-add_oid e.oid)
          (Writes-add_when e.critical _ (Writes-add_asn1_boolean L true)))
        (Writes-add_optional _ (extension_value L marshal) e.value_hex Writes-add_extension_value))

  pub Writes-add_rdn : (rdn : Rdn) → Writes L (add_rdn C marshal rdn) (rdn_template L marshal rdn)
  unfolding add_rdn add_rdn_value
  Writes-add_rdn rdn = Writes-add_asn1 L _ _ (
      Writes-add_asn1 L _ _ (
        Writes-seq L (add_oid C marshal rdn.oid) _ (Writes-add_oid rdn.oid) (
          Writes-add_optional (add_rdn_value C marshal) (λ v. node L C.utf8_string (some v))
            rdn.value (λ v. Writes-add_asn1 L _ _ (Writes-add_bytes L v)))))

  pub Writes-add_subject_pk_info_template :
      (ka : KeyAlgorithm)
      → Writes L (add_subject_pk_info_template C marshal ka) (subject_pk_info_template L marshal ka)
  unfolding add_subject_pk_info_template
  Writes-add_subject_pk_info_template ka = Writes-add_asn1 L _ _ (
      Writes-add_asn1 L _ _ (
        Writes-seq L (add_oid C marshal ka.oid) _ (Writes-add_oid ka.oid)
          (Writes-add_when _ _ (Writes-add_oid ka.curve_oid))))
