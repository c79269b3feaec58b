-- ===== src/CsrAttrs/Der.antt =====
-- `Encode` of internal/csrattrs writes the CsrAttrs of RFC 7030 and RFC 9908.
use est.Common.{
  ◌≡◌, ◌∙◌, sym, subst, ◌∷◌, pos, not, Bool-cases, inl, inr, List, [], map, some, Bytes, is_empty,
  all, Result, ok, value, value-context, if◌then◌else◌,
}
use est.Cryptobyte.{Cryptobyte, IsLawful}
use est.Cryptobyte.Writes.{
  Writes, Writes-empty, Writes-id, Writes-seq, Writes-add_asn1, Writes-add_asn1_int64,
}
use est.CsrAttrs.{TemplateExtension, Template, Options, validate_options, is_empty_options}
use est.CsrAttrs.Encode.{
  PkixExtension, oid_challenge_password, oid_extension_req_template,
  oid_certification_request_info_template, full_extension, has_value, add_each, add_optional,
  add_when, add_oid, add_key_algorithm_attribute, add_extension_req_attribute,
  add_extension_template, add_extension_req_template_attribute, add_rdn, add_subject_template,
  add_subject_pk_info_template, add_extension_requirements, add_template_attributes, add_template,
  add_template_attribute, add_csr_attrs, encode_csr_attrs,
}
use est.CsrAttrs.Asn1.{
  challenge_password_type, info_template_type, extension_req_template_type, attribute_of,
  object_identifier, key_algorithm_attribute, extension_template, rdn_template,
  subject_pk_info_template, required_or_template, extension_requirements, template_value, csr_attrs,
}
use est.CsrAttrs.Values.{
  parse_oid-challenge_password, parse_oid-info_template, parse_oid-extension_req_template,
  with_values_lem,
}
use est.CsrAttrs.Elements.{
  Writes-add_when, Writes-add_optional, Writes-add_each, Writes-add_oid, object_identifier-ok,
  Writes-add_attribute-ok, Writes-add_key_algorithm_attribute, Writes-add_extension_req_attribute,
  Writes-add_extension_template, Writes-add_rdn, Writes-add_subject_pk_info_template,
}

module _ {C : Cryptobyte} (L : IsLawful C) (marshal : List PkixExtension → Result Bytes) where
  Writes-add_extension_requirements :
      (exts : List TemplateExtension)
      → Writes L (add_extension_requirements C marshal exts) (extension_requirements L marshal exts)
  unfolding add_extension_requirements add_extension_req_template_attribute
  Writes-add_extension_requirements [] = Writes-id L
  Writes-add_extension_requirements (e ∷ exts) =
      let ts = e ∷ exts in
      subst
        (λ o.
          Writes L (add_extension_requirements C marshal ts) (required_or_template L marshal ts o))
        (sym (with_values_lem ts))
        (elim (Bool-cases (all has_value ts)) [
          | inl f ↦
              rw (f, add_extension_requirements)
                (Writes-add_extension_req_attribute L marshal (map full_extension ts))
          | inr f ↦
              rw (f, add_extension_requirements)
                (Writes-add_attribute-ok L marshal oid_extension_req_template
                  extension_req_template_type _ parse_oid-extension_req_template
                  (Writes-add_asn1 L _ _ (
                    Writes-add_each L marshal (add_extension_template C marshal)
                      (extension_template L marshal) ts (Writes-add_extension_template L marshal))))
        ])

  Writes-add_template :
      (t : Template) → Writes L (add_template C marshal t) (template_value L marshal t)
  unfolding add_template add_subject_template add_template_attributes
  Writes-add_template t =
      let version = λ (b : C.Builder). C.add_asn1_int64 b (pos 0) in
      let subject = λ (b : C.Builder).
        add_when C marshal (not (is_empty t.subject)) (add_subject_template C marshal t.subject)
          (version b) in
      let key_type = λ (b : C.Builder).
        add_optional C marshal (add_subject_pk_info_template C marshal) t.key_type (subject b) in
      Writes-add_asn1 L _ _ (
        Writes-seq L key_type _
          (Writes-seq L subject _
            (Writes-seq L version _ (Writes-add_asn1_int64 L (pos 0)) (
              Writes-add_when L marshal _ _ (
                Writes-add_asn1 L _ _ (
                  Writes-add_each L marshal (add_rdn C marshal) (rdn_template L marshal) t.subject
                    (Writes-add_rdn L marshal)))))
            (Writes-add_optional L marshal (add_subject_pk_info_template C marshal)
              (subject_pk_info_template L marshal) t.key_type
              (Writes-add_subject_pk_info_template L marshal)))
          (Writes-add_asn1 L _ _ (Writes-add_extension_requirements t.extensions)))

  challenge_is :
      object_identifier L marshal oid_challenge_password ≡ L.oid_element challenge_password_type
  challenge_is =
      object_identifier-ok L marshal oid_challenge_password challenge_password_type
        parse_oid-challenge_password

  Writes-add_csr_attrs :
      (opts : Options)
      → Writes L
          (λ b. C.add_asn1 b C.sequence (add_csr_attrs C marshal opts))
          (csr_attrs L marshal opts)
  unfolding add_csr_attrs add_template_attribute
  Writes-add_csr_attrs opts =
      let exts = opts.required_extensions in
      let challenge =
        subst (Writes L (add_oid C marshal oid_challenge_password)) challenge_is
          (Writes-add_oid L marshal oid_challenge_password) in
      let password =
        add_when C marshal opts.challenge_password (add_oid C marshal oid_challenge_password) in
      let key_algorithm = λ (b : C.Builder).
        add_optional C marshal (add_key_algorithm_attribute C marshal) opts.key_algorithm
          (password b) in
      let required = λ (b : C.Builder).
        add_when C marshal (not (is_empty exts)) (add_extension_req_attribute C marshal exts)
          (key_algorithm b) in
      let extra =
        λ (b : C.Builder). add_each C marshal (add_oid C marshal) opts.extra_oids (required b) in
      Writes-add_asn1 L _ _ (
        Writes-seq L extra _
          (Writes-seq L required _
            (Writes-seq L key_algorithm _
              (Writes-seq L password _ (Writes-add_when L marshal _ _ challenge) (
                Writes-add_optional L marshal (add_key_algorithm_attribute C marshal)
                  (key_algorithm_attribute L marshal) opts.key_algorithm
                  (Writes-add_key_algorithm_attribute L marshal)))
              (Writes-add_when L marshal _ _ (Writes-add_extension_req_attribute L marshal exts)))
            (Writes-add_each L marshal (add_oid C marshal) (object_identifier L marshal)
              opts.extra_oids (Writes-add_oid L marshal)))
          (Writes-add_optional L marshal (add_template_attribute C marshal)
            (λ t. attribute_of L marshal info_template_type (template_value L marshal t))
            opts.template
            (λ t.
              Writes-add_attribute-ok L marshal oid_certification_request_info_template
                info_template_type _ parse_oid-info_template (Writes-add_template t))))

  pub value-encode_csr_attrs :
      (opts : Options)
      → validate_options opts ≡ ok tt
      → value (encode_csr_attrs C marshal opts)
        ≡ (if is_empty_options opts then some [] else csr_attrs L marshal opts)
  unfolding encode_csr_attrs
  value-encode_csr_attrs opts h = elim (Bool-cases (is_empty_options opts)) [
    | inl e ↦ rw (h, e)
    | inr e ↦ rw (h, e) (value-context _ _ ∙ Writes-empty L _ (Writes-add_csr_attrs opts))
  ]
