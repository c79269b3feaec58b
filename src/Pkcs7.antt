-- ===== src/Pkcs7.antt =====
-- internal/pkcs7/pkcs7.go: the certificates-only SignedData of EST's responses, encoded and decoded
-- over any cryptobyte. A `*x509.Certificate` that may be nil is an `Option`.
pub mod Encode
pub mod Decode
use est.Common.{ℕ, zero, suc, Bool, false, not, List, [], ◌∷◌, ◌++◌, Option, none, some}
use est.Common.{Bytes, ascii, length, is_empty, all, pos, ObjectIdentifier, oid_eq}
use est.Common.{Error, new, wrap, Result, ok, err, ◌>>=◌, ◌>>◌, require, guard, context}
use est.X509.{Certificate}
use est.Cryptobyte.{Cryptobyte}

abbrev pub oid_data : ObjectIdentifier
oid_data = pos 1 ∷ pos 2 ∷ pos 840 ∷ pos 113549 ∷ pos 1 ∷ pos 7 ∷ pos 1 ∷ []

abbrev pub oid_signed_data : ObjectIdentifier
oid_signed_data = pos 1 ∷ pos 2 ∷ pos 840 ∷ pos 113549 ∷ pos 1 ∷ pos 7 ∷ pos 2 ∷ []

-- Not `c == nil || len(c.Raw) == 0`.
unfoldable pub has_raw : Option Certificate → Bool
has_raw none = false
has_raw (some c) = not (is_empty c.raw)

unfoldable pub no_raw_error : Error
no_raw_error = new (ascii "pkcs7: certificate has no raw DER encoding")

module _ (C : Cryptobyte) where
  open C use {Tag, Builder, sequence, set, add_asn1, add_bytes}

  -- `casn1.Tag(0).ContextSpecific().Constructed()`
  abbrev pub context_0 : Tag
  context_0 = C.constructed (C.context_specific (C.tag 0))

  -- The loop over `certs`. It runs after the check that no pointer is nil.
  unfoldable pub add_certificates : List (Option Certificate) → Builder → Builder
  add_certificates [] b = b
  add_certificates (none ∷ cs) b = add_certificates cs b
  add_certificates (some c ∷ cs) b = add_certificates cs (add_bytes b c.raw)

  unfoldable pub add_signed_data : List (Option Certificate) → Builder → Builder
  add_signed_data certs b =
      let b1 = C.add_asn1_int64 b (pos 1) in
      let b2 = add_asn1 b1 set (λ b. b) in
      let b3 = add_asn1 b2 sequence (λ b. C.add_asn1_object_identifier b oid_data) in
      let b4 = add_asn1 b3 context_0 (add_certificates certs) in add_asn1 b4 set (λ b. b)

  unfoldable pub add_content_info : List (Option Certificate) → Builder → Builder
  add_content_info certs b =
      add_asn1 (C.add_asn1_object_identifier b oid_signed_data) context_0
        (λ b. add_asn1 b sequence (add_signed_data certs))

  unfoldable pub encode_certs_only : List (Option Certificate) → Result Bytes
  encode_certs_only certs = do
    guard (all has_raw certs) no_raw_error
    context (ascii "pkcs7: marshal") (C.bytes (add_asn1 C.empty sequence (add_content_info certs)))

  -- From the start of `DecodeCertsOnly` to the test of `hasCertificates`.
  unfoldable pub read_certificates_field : Bytes → Result Bytes
  read_certificates_field der = do
    (content_info, rest) ←
        require (C.read_asn1 der sequence) (new (ascii "pkcs7: invalid contentInfo"))
    guard (is_empty rest) (new (ascii "pkcs7: invalid contentInfo"))
    (content_type, content_info) ←
        require (C.read_asn1_object_identifier content_info)
          (new (ascii "pkcs7: invalid contentType"))
    guard (oid_eq content_type oid_signed_data) (new (ascii "pkcs7: unexpected content type"))
    (explicit_content, _) ←
        require (C.read_asn1 content_info context_0) (new (ascii "pkcs7: missing content"))
    (signed_data, _) ←
        require (C.read_asn1 explicit_content sequence) (new (ascii "pkcs7: invalid signedData"))
    (_, signed_data) ←
        require (C.read_asn1_int64_with_tag signed_data C.integer)
          (new (ascii "pkcs7: invalid version"))
    (_, signed_data) ←
        require (C.read_asn1 signed_data set) (new (ascii "pkcs7: invalid digestAlgorithms"))
    (_, signed_data) ←
        require (C.read_asn1 signed_data sequence) (new (ascii "pkcs7: invalid contentInfo"))
    (certificates, _) ←
        require (C.read_optional_asn1 signed_data context_0)
          (new (ascii "pkcs7: invalid certificates field"))
    require certificates (new (ascii "pkcs7: no certificates field present"))

  module _ (parse_certificate : Bytes → Result Certificate) where
    -- One round of the loop, from `certificates` to the certificate and the rest.
    unfoldable pub read_certificate : Bytes → Result (Certificate × Bytes)
    read_certificate certificates = do
      (element, rest) ←
          require (C.read_asn1_element certificates sequence)
            (new (ascii "pkcs7: parse embedded certificate: malformed element"))
      cert ← context (ascii "pkcs7: parse embedded certificate") (parse_certificate element)
      ok (cert, rest)

    -- The loop; `none` means that the fuel ran out.
    unfoldable pub read_certificates :
        ℕ → Bytes → List Certificate → Option (Result (List Certificate))
    read_certificates fuel [] certs = some (ok certs)
    read_certificates zero (b ∷ bs) certs = none
    read_certificates (suc fuel) (b ∷ bs) certs = elim (read_certificate (b ∷ bs)) [
      | ok (cert, rest) ↦ read_certificates fuel rest (certs ++ (cert ∷ []))
      | err e ↦ some (err e)
    ]

    -- A round takes a byte at least, so as many rounds as there are bytes are enough.
    unfoldable pub decode_certs_only : Bytes → Option (Result (List Certificate))
    decode_certs_only der = elim (read_certificates_field der) [
      | ok certificates ↦ read_certificates (length certificates) certificates []
      | err e ↦ some (err e)
    ]
