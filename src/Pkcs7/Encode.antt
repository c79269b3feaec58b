-- ===== src/Pkcs7/Encode.antt =====
-- What `EncodeCertsOnly` writes, as the ASN.1 structure of RFC 2315, but for the order of the
-- certificates, which DER sorts and this code does not.
use est.Common.{◌≡◌, ◌∙◌, List, [], ◌∷◌, ◌++◌, map, ObjectIdentifier, Option, none, some}
use est.Common.{Bool-cases, inl, inr, Bytes, if◌then◌else◌, all, pos, value, value-context}
use est.X509.{Certificate}
use est.Cryptobyte.{Cryptobyte, IsLawful, Der, ◌<+>◌}
use est.Cryptobyte.Writes.{
  node, Writes, Writes-empty, Writes-id, Writes-seq, Writes-add_bytes, Writes-add_asn1,
  Writes-add_asn1_object_identifier, Writes-add_asn1_int64,
}
use est.Pkcs7.{oid_data, oid_signed_data, has_raw, context_0, add_certificates, add_signed_data}
use est.Pkcs7.{add_content_info, encode_certs_only}

-- data and signedData of RFC 2315.
abbrev pub data_type : ObjectIdentifier
data_type = map pos (1 ∷ 2 ∷ 840 ∷ 113549 ∷ 1 ∷ 7 ∷ 1 ∷ [])

abbrev pub signed_data_type : ObjectIdentifier
signed_data_type = map pos (1 ∷ 2 ∷ 840 ∷ 113549 ∷ 1 ∷ 7 ∷ 2 ∷ [])

-- The certificates' encodings, one after the other.
abbrev pub raws : List (Option Certificate) → Bytes
raws [] = []
raws (none ∷ cs) = raws cs
raws (some c ∷ cs) = c.raw ++ raws cs

module _ {C : Cryptobyte} (L : IsLawful C) where
  -- SignedData, around the bytes of the certificates field: the end of it, and the whole.
  abbrev pub from_certificates : Bytes → Der
  from_certificates certificates =
      node L (context_0 C) (some certificates) <+> node L C.set (some [])

  abbrev pub from_encapsulated : Bytes → Der
  from_encapsulated certificates =
      node L C.sequence (L.oid_element data_type) <+> from_certificates certificates

  abbrev pub from_algorithms : Bytes → Der
  from_algorithms certificates = node L C.set (some []) <+> from_encapsulated certificates

  abbrev pub signed_data : Bytes → Der
  signed_data certificates = some (L.int64_element (pos 1)) <+> from_algorithms certificates

  abbrev pub content_info : Bytes → Der
  content_info certificates = node L C.sequence (
      L.oid_element signed_data_type
      <+> node L (context_0 C) (node L C.sequence (signed_data certificates)))

  Writes-add_certificates :
      (certs : List (Option Certificate)) → Writes L (add_certificates C certs) (some (raws certs))
  unfolding add_certificates
  Writes-add_certificates [] = Writes-id L
  Writes-add_certificates (none ∷ cs) = Writes-add_certificates cs
  Writes-add_certificates (some c ∷ cs) =
      Writes-seq L _ _ (Writes-add_bytes L c.raw) (Writes-add_certificates cs)

  Writes-add_signed_data :
      (certs : List (Option Certificate))
      → Writes L (add_signed_data C certs) (signed_data (raws certs))
  unfolding add_signed_data
  Writes-add_signed_data certs =
      let step = λ (t : C.Tag) (f : C.Builder → C.Builder) (b : C.Builder). C.add_asn1 b t f in
      Writes-seq L (λ b. C.add_asn1_int64 b (pos 1)) _ (Writes-add_asn1_int64 L (pos 1))
        (Writes-seq L (step C.set (λ b. b)) _ (Writes-add_asn1 L _ _ (Writes-id L)) (
          Writes-seq L (step C.sequence (λ b. C.add_asn1_object_identifier b oid_data)) _
            (Writes-add_asn1 L _ _ (Writes-add_asn1_object_identifier L oid_data))
            (Writes-seq L (step (context_0 C) (add_certificates C certs)) _
              (Writes-add_asn1 L _ _ (Writes-add_certificates certs))
              (Writes-add_asn1 L _ _ (Writes-id L)))))

  Writes-add_content_info :
      (certs : List (Option Certificate))
      → Writes L
          (λ b. C.add_asn1 b C.sequence (add_content_info C certs))
          (content_info (raws certs))
  unfolding add_content_info
  Writes-add_content_info certs = Writes-add_asn1 L _ _ (
      Writes-seq L _ _ (Writes-add_asn1_object_identifier L oid_signed_data)
        (Writes-add_asn1 L _ _ (Writes-add_asn1 L _ _ (Writes-add_signed_data certs))))

  pub value-encode_certs_only :
      (certs : List (Option Certificate))
      → value (encode_certs_only C certs)
        ≡ (if all has_raw certs then content_info (raws certs) else none)
  unfolding encode_certs_only
  value-encode_certs_only certs = elim (Bool-cases (all has_raw certs)) [
    | inl e ↦ rw e (value-context _ _ ∙ Writes-empty L _ (Writes-add_content_info certs))
    | inr e ↦ rw e
  ]
