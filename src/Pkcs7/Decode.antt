-- ===== src/Pkcs7/Decode.antt =====
-- `DecodeCertsOnly`: it ends on every input, and reads back what `EncodeCertsOnly` wrote.
use est.Common.{ℕ, zero, suc, ◌≤◌, ◌<◌, ◌≡◌, refl, sym, ◌∙◌, ap, ◌≢◌, inl, inr, arith}
use est.Common.{List, [], ◌∷◌, ◌++◌, append-nil, append_assoc, map, none, some}
use est.Common.{Bytes, length, length-append, All, pos, oid_eq_iff, Result, ok}
use est.Common.{Bool-cases, Option-cases, Result-cases, all, value}
use mathlib.Core.Option.{some-injective}
use est.X509.{Certificate}
use est.Cryptobyte.{Cryptobyte, IsLawful, IsSmallArc, ◌<+>◌}
use est.Cryptobyte.Writes.{node, <+>-eq-some, then_encode-eq-some}
use est.Pkcs7.{oid_data, oid_signed_data, has_raw, context_0, read_certificates_field}
use est.Pkcs7.{read_certificate, read_certificates, decode_certs_only, encode_certs_only}
use est.Pkcs7.Encode.{
  raws, signed_data, from_algorithms, from_encapsulated, from_certificates, content_info,
}
use est.Pkcs7.Encode.{value-encode_certs_only}

module _ {C : Cryptobyte} (L : IsLawful C) where
  read_asn1-whole :
      (t : C.Tag) (c : Bytes) {d : Bytes} → L.element t c ≡ some d → C.read_asn1 d t ≡ some (c, [])
  read_asn1-whole t c {d} e = rw append-nil at (L.read_asn1-element t c d [] e)

  oid_signed_data-IsSmallArc : All IsSmallArc oid_signed_data
  oid_signed_data-IsSmallArc = ground arith

  read_certificates_field-content_info :
      (certificates : Bytes) {der : Bytes}
      → content_info L certificates ≡ some der
      → read_certificates_field C der ≡ ok certificates
  unfolding read_certificates_field
  read_certificates_field-content_info certificates {der} e =
      let signed_el = node L C.sequence (signed_data L certificates) in
      let content_el = node L (context_0 C) signed_el in
      let (body, body_eq, der_eq) =
        then_encode-eq-some (L.oid_element oid_signed_data <+> content_el) (L.element C.sequence)
          e in
      let (oid, content, oid_is, content_is, body_is) =
        <+>-eq-some (L.oid_element oid_signed_data) content_el body_eq in
      let (explicit, explicit_is, content_eq) =
        then_encode-eq-some signed_el (L.element (context_0 C)) content_is in
      let (signed, signed_eq, explicit_eq) =
        then_encode-eq-some (signed_data L certificates) (L.element C.sequence) explicit_is in
      let (version, after_version, version_eq, version_rest, signed_is) =
        <+>-eq-some (some (L.int64_element (pos 1))) (from_algorithms L certificates) signed_eq in
      let (algorithms, after_algorithms, algorithms_el, algorithms_rest, version_is) =
        <+>-eq-some (node L C.set (some [])) (from_encapsulated L certificates) version_rest in
      let encap_node = node L C.sequence (L.oid_element oid_data) in
      let (encap, after_encap, encap_eq, encap_rest, algorithms_is) =
        <+>-eq-some encap_node (from_certificates L certificates) algorithms_rest in
      let (certs, signers, certs_el, _, encap_is) =
        <+>-eq-some (node L (context_0 C) (some certificates)) (node L C.set (some []))
          encap_rest in
      let (encap_body, _, encap_el) =
        then_encode-eq-some (L.oid_element oid_data) (L.element C.sequence) encap_eq in
      rw (
        read_asn1-whole C.sequence body der_eq,
        body_is,
        L.read_asn1_object_identifier-element oid_signed_data oid content oid_signed_data-IsSmallArc
            oid_is,
        (oid_eq_iff oid_signed_data oid_signed_data).1 refl,
        read_asn1-whole (context_0 C) explicit content_eq,
        read_asn1-whole C.sequence signed explicit_eq,
        signed_is,
        ← some-injective _ _ version_eq,
        L.read_asn1_int64_with_tag-element (pos 1) after_version (omega arith),
        version_is,
        L.read_asn1-element C.set [] algorithms after_algorithms algorithms_el,
        algorithms_is,
        L.read_asn1-element C.sequence encap_body encap after_encap encap_el,
        encap_is,
        L.read_optional_asn1-element (context_0 C) certificates certs signers certs_el,
      )

  -- A successful encoding is the ContentInfo.
  written_content :
      (cs : List Certificate) {der : Bytes}
      → encode_certs_only C (map some cs) ≡ ok der
      → content_info L (raws (map some cs)) ≡ some der
  written_content cs e = elim (Bool-cases (all has_raw (map some cs))) [
    | inl t ↦ rw t at (sym (value-encode_certs_only L (map some cs)) ∙ ap value e)
    | inr f ↦ cc (rw f at (sym (value-encode_certs_only L (map some cs)) ∙ ap value e))
  ]

  module _ (parse_certificate : Bytes → Result Certificate) where
    -- The certificate is what parsing its bytes gives, and they are one SEQUENCE element.
    pub record IsEmbeddable (c : Certificate) : Type 0 where
      pub parsed : parse_certificate c.raw ≡ ok c
      pub content : Bytes
      pub raw_element : L.element C.sequence content ≡ some c.raw

    -- One round takes one certificate off the front.
    read_certificate-raw :
        (c : Certificate) (rest : Bytes)
        → IsEmbeddable c
        → read_certificate C parse_certificate (c.raw ++ rest) ≡ ok (c, rest)
    unfolding read_certificate
    read_certificate-raw c rest h =
        rw (L.read_asn1_element-element C.sequence h.content c.raw rest h.raw_element, h.parsed)

    read_certificate_shorter :
        (s : Bytes) {c : Certificate} {rest : Bytes}
        → read_certificate C parse_certificate s ≡ ok (c, rest)
        → length rest < length s
    unfolding read_certificate
    read_certificate_shorter s h = elim (Option-cases (C.read_asn1_element s C.sequence)) [
      | inl e ↦ cc (rw e at h)
      | inr ((d, after), e) ↦ ground (
        arith,
        h,
        L.read_asn1_element_front s C.sequence e,
        length-append d after,
        parse_certificate d,
      )
    ]

    read_certificates-ne-none :
        (fuel : ℕ) (s : Bytes) (certs : List Certificate)
        → length s ≤ fuel
        → read_certificates C parse_certificate fuel s certs ≢ none
    unfolding read_certificates
    read_certificates-ne-none fuel [] certs h = λ e. cc
    read_certificates-ne-none zero (b ∷ bs) certs h = absurd (omega arith)
    read_certificates-ne-none (suc fuel) (b ∷ bs) certs h =
        elim (Result-cases (read_certificate C parse_certificate (b ∷ bs))) [
          | inl ((c, rest), e) ↦
              rw (e, read_certificates)
                (read_certificates-ne-none fuel rest (certs ++ (c ∷ []))
                  (omega (arith, read_certificate_shorter (b ∷ bs) e)))
          | inr (x, e) ↦ rw (e, read_certificates) (λ p. cc)
        ]

    read_certificates_step :
        (fuel : ℕ) (s : Bytes) (done : List Certificate) {c : Certificate} {rest : Bytes}
        → read_certificate C parse_certificate s ≡ ok (c, rest)
        → read_certificates C parse_certificate (suc fuel) s done
          ≡ read_certificates C parse_certificate fuel rest (done ++ (c ∷ []))
    unfolding read_certificates
    read_certificates_step fuel [] done e = absurd (omega (arith, read_certificate_shorter [] e))
    read_certificates_step fuel (b ∷ bs) done e = rw (e, read_certificates)

    read_certificates-raws :
        (cs : List Certificate) (fuel : ℕ) (done : List Certificate)
        → All IsEmbeddable cs
        → length (raws (map some cs)) ≤ fuel
        → read_certificates C parse_certificate fuel (raws (map some cs)) done
          ≡ some (ok (done ++ cs))
    unfolding read_certificates
    read_certificates-raws [] zero done h hf = rw append-nil
    read_certificates-raws [] (suc fuel) done h hf = rw append-nil
    read_certificates-raws (c ∷ cs) zero done (hc, hcs) hf =
        let first = read_certificate-raw c (raws (map some cs)) hc in
        absurd (omega (arith, read_certificate_shorter _ first))
    read_certificates-raws (c ∷ cs) (suc fuel) done (hc, hcs) hf =
        let first = read_certificate-raw c (raws (map some cs)) hc in
        read_certificates_step fuel _ done first
        ∙ read_certificates-raws cs fuel (done ++ (c ∷ [])) hcs
            (omega (arith, read_certificate_shorter _ first))
        ∙ ap (λ l. some (ok l)) (append_assoc done (c ∷ []) cs)

    -- Decoding ends on every input.
    pub decode_certs_only-ne-none : (der : Bytes) → decode_certs_only C parse_certificate der ≢ none
    unfolding decode_certs_only
    decode_certs_only-ne-none der = elim (Result-cases (read_certificates_field C der)) [
      | inl (s, e) ↦
          rw (e, decode_certs_only) (read_certificates-ne-none (length s) s [] (omega arith))
      | inr (x, e) ↦ rw (e, decode_certs_only) (λ p. cc)
    ]

    -- What was encoded is decoded to the same certificates in the same order.
    pub decode_certs_only-encode_certs_only :
        (cs : List Certificate) {der : Bytes}
        → All IsEmbeddable cs
        → encode_certs_only C (map some cs) ≡ ok der
        → decode_certs_only C parse_certificate der ≡ some (ok cs)
    unfolding decode_certs_only
    decode_certs_only-encode_certs_only cs {der} h e =
        let shown =
          read_certificates_field-content_info (raws (map some cs)) (written_content cs e) in
        rw (shown, decode_certs_only) (read_certificates-raws cs _ [] h (omega arith))

    read_certificate-eq-ok :
        (s : Bytes) {c : Certificate} {rest : Bytes}
        → read_certificate C parse_certificate s ≡ ok (c, rest)
        → (d : Bytes) × (parse_certificate d ≡ ok c) × (s ≡ d ++ rest)
    unfolding read_certificate
    read_certificate-eq-ok s h = elim (Option-cases (C.read_asn1_element s C.sequence)) [
      | inl e ↦ cc (rw e at h)
      | inr ((d, after), e) ↦ (
        d,
        ground (arith, h, e, parse_certificate d),
        ground (arith, h, L.read_asn1_element_front s C.sequence e, parse_certificate d),
      )
    ]
