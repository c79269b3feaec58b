-- ===== src/Estapi/Server/Delivered.antt =====
-- The whole way of an enrollment: what the client reads out of the answer is what the store on disk
-- gives back.
use est.Common.{
  ◌≡◌, sym, ap, ◌∙◌, arith, ◌⊎◌, ℤ, [], ◌∷◌, none, some, Option-cases, inl, inr, Bytes, All, IsByte,
  Result, ok,
}
use est.X509.{Certificate, CertificateRequest}
use est.Fs.{Files}
use est.Cryptobyte
use est.Pkcs7.{encode_certs_only}
use est.Pkcs7.Decode.{IsEmbeddable}
use est.Ca.{CaBackend}
use est.Store
use est.Store.{Metadata}
use est.Store.FileStore.{FileStore, get_certificate, read_file, cert_path}
use est.Store.FileStore.Lawful.{file_store, file_store-IsLawful, content_of, certificate-content_of}
use est.Estapi.Encoding.{Response}
use est.Estapi.Server.{Platform, Request, Route, World, route, serve}
use est.Estapi.Server.Client.{read_certificates, read_certificates-write_pkcs7_response}
use est.Estapi.Server.Enroll.{IsEnrolled, serve_200}

module _ (parse_certificate : Bytes → Result Certificate) where
  get_certificate_stored :
      (s : FileStore) (n : ℤ) (files : Files) (cert : Certificate)
      → content_of (files (cert_path s n)) ≡ some cert.raw
      → parse_certificate cert.raw ≡ ok cert
      → get_certificate parse_certificate none s n files ≡ ok cert
  unfolding get_certificate read_file
  get_certificate_stored s n files cert stored parsed =
      elim (Option-cases (files (cert_path s n))) [
        | inl absent ↦ absurd (ground (arith, stored, absent))
        | inr (f, present) ↦ ground (arith, stored, present, parsed)
      ]

-- The backend issues certificates that are one DER element and parse to themselves, and their message
-- consists of bytes.
module _ (P : Platform) (L : Cryptobyte.IsLawful P.cryptobyte) (B : CaBackend)
    (parse_certificate : Bytes → Result Certificate) (marshal_indent : Metadata → Result Bytes)
    (s : FileStore)
    (issued_embeddable : (csr : CertificateRequest) (ca : B.State) (cert : Certificate)
      → (B.issue_certificate csr ca).0 ≡ ok cert
      → IsEmbeddable L parse_certificate cert)
    (encoded_bytes : (csr : CertificateRequest) (ca : B.State) (cert : Certificate) (der : Bytes)
      → (B.issue_certificate csr ca).0 ≡ ok cert
      → encode_certs_only P.cryptobyte (some cert ∷ []) ≡ ok der
      → All IsByte der) where
  abbrev DiskWorld : Type 0
  DiskWorld = World B (file_store parse_certificate marshal_indent s)

  -- The body of the response holds one certificate, and `GetCertificate` of its serial gives it.
  abbrev pub IsDelivered : Response × DiskWorld → Type 0
  IsDelivered out =
      (cert : Certificate) × (read_certificates L parse_certificate out.0.body
        ≡ some (ok (cert ∷ [])))
      × (get_certificate parse_certificate none s cert.serial_number out.1.store.disk.now ≡ ok cert)

  IsEnrolled-IsDelivered :
      (csr : CertificateRequest) (cert : Certificate) (w : DiskWorld) (out : Response × DiskWorld)
      → IsEnrolled P B (file_store-IsLawful parse_certificate marshal_indent s) csr cert w out
      → IsDelivered out
  IsEnrolled-IsDelivered csr cert w out h =
      let embeddable = issued_embeddable csr w.ca cert h.issued in
      let bytes = encoded_bytes csr w.ca cert h.der h.issued h.encoded in
      let read =
        read_certificates-write_pkcs7_response L parse_certificate (cert ∷ []) (embeddable, tt)
          bytes h.encoded in
      (
        cert,
        ap (λ (x : Response). read_certificates L parse_certificate x.body) h.response ∙ read,
        get_certificate_stored parse_certificate s cert.serial_number out.1.store.disk.now cert
            (sym (
                certificate-content_of parse_certificate marshal_indent s out.1.store
                  cert.serial_number)
              ∙ h.certificate_stored)
            embeddable.parsed,
      )

  abbrev on_disk : Store.IsLawful (file_store parse_certificate marshal_indent s)
  on_disk = file_store-IsLawful parse_certificate marshal_indent s

  -- Over a lawful cryptobyte, a store on disk, and a backend whose certificates are one DER element
  -- each, parse to themselves and are encoded as bytes: when an enrollment is answered with 200,
  -- the client reads one certificate out of the body, and the store gives back the same one under
  -- its serial number.
  pub serve-IsDelivered :
      (csr_attrs_der : Bytes) (r : Request) (w : DiskWorld)
      → (route r.method r.path ≡ Route.simple_enroll)
        ⊎ (route r.method r.path ≡ Route.simple_reenroll)
      → let out = serve P B (file_store parse_certificate marshal_indent s) csr_attrs_der r w in
        out.0.status ≡ 200 → IsDelivered out
  serve-IsDelivered csr_attrs_der r w routed good =
      let (peer, csr, cert, _, _, enrolled) = serve_200 P B on_disk csr_attrs_der r w routed good in
      IsEnrolled-IsDelivered csr cert w _ enrolled
