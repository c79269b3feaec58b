-- ===== src/Estapi/Server/Available.antt =====
-- An enrollment to which nothing is to object is answered with its certificate.
use est.Common.{◌≡◌, arith, ◌⊎◌, inl, inr, [], ◌∷◌, some, Bytes, Result, ok}
use est.X509.{Certificate, CertificateRequest}
use est.Pkcs7.{encode_certs_only}
use est.Ca.{CaBackend}
use est.Store.{Metadata}
use est.Store.FileStore.{FileStore}
use est.Store.FileStore.Lawful.{file_store}
use est.Store.FileStore.Healthy.{IsHealthy, put_csr-ok, put_certificate-ok}
use est.Estapi.Encoding.{Response, decode_csr_body, write_pkcs7_response}
use est.Estapi.Identity.{peer_certificate}
use est.Estapi.Identity.Abstract.{peer_identity, csr_identity, identities_match_of_eq}
use est.Estapi.Server.{
  Platform, Request, Route, World, route, respond_with, persist_certificate, persist,
  issue_and_respond, handle_simple_enroll, handle_simple_reenroll, serve,
}

module _ (P : Platform) (B : CaBackend) (parse_certificate : Bytes → Result Certificate)
    (marshal_indent : Metadata → Result Bytes) (s : FileStore) where
  abbrev DiskWorld : Type 0
  DiskWorld = World B (file_store parse_certificate marshal_indent s)

  abbrev meta_of : Request → Certificate → Metadata
  meta_of r peer = record {
    requester = peer.subject.common_name;
    remote_addr = r.remote_addr;
    received_at = r.received_at;
  }

  -- The backend issues the certificate, its metadata and its message can be encoded, and no call of
  -- the writes to the store fails.
  pub record CanIssue (r : Request) (peer : Certificate) (csr : CertificateRequest)
      (cert : Certificate) (der : Bytes) (w : DiskWorld) : Type 0 where
    pub issued : (B.issue_certificate csr w.ca).0 ≡ ok cert
    pub json : Bytes
    pub marshalled : marshal_indent (meta_of r peer) ≡ ok json
    pub healthy : IsHealthy s cert.serial_number w.store
    pub encoded : encode_certs_only P.cryptobyte (some cert ∷ []) ≡ ok der

  -- The message of the certificate is the answer, and no error is logged.
  abbrev pub IsAnsweredBy : Bytes → DiskWorld → Response × DiskWorld → Type 0
  IsAnsweredBy der w out = (out.0 ≡ write_pkcs7_response der) × (out.1.log ≡ w.log)

  issue_and_respond_lem :
      (r : Request) (peer : Certificate) (csr : CertificateRequest) (cert : Certificate)
      (der : Bytes) (w : DiskWorld)
      → CanIssue r peer csr cert der w
      → IsAnsweredBy der w
          (issue_and_respond P B (file_store parse_certificate marshal_indent s) r csr peer w)
  unfolding issue_and_respond persist persist_certificate respond_with
  issue_and_respond_lem r peer csr cert der w h =
      let n = cert.serial_number in
      let meta = meta_of r peer in
      let csr_put =
        put_csr-ok parse_certificate marshal_indent s n csr.raw meta w.store h.healthy in
      let cert_put =
        put_certificate-ok parse_certificate marshal_indent s n csr.raw cert.raw meta w.store
          h.healthy h.marshalled in
      ground (arith, h.issued, h.encoded, csr_put, cert_put)

  -- An enrollment of a client that shows its certificate and sends a CSR, for a renewal one of the
  -- same identity with its names in any order, is answered with the message of the certificate
  -- that the backend issues, where the backend issues one and the disk does not fail.
  pub serve-IsAnsweredBy :
      (csr_attrs_der : Bytes) (r : Request) (w : DiskWorld) (peer : Certificate)
      (csr : CertificateRequest) (cert : Certificate) (der : Bytes)
      → peer_certificate r.tls ≡ ok peer
      → decode_csr_body P.parse_certificate_request r.body ≡ ok csr
      → (route r.method r.path ≡ Route.simple_enroll)
        ⊎ ((route r.method r.path ≡ Route.simple_reenroll)
            × (peer_identity P.ip_string P.url_string peer
                ≡ csr_identity P.ip_string P.url_string csr))
      → CanIssue r peer csr cert der w
      → IsAnsweredBy der w
          (serve P B (file_store parse_certificate marshal_indent s) csr_attrs_der r w)
  unfolding serve handle_simple_enroll handle_simple_reenroll
  serve-IsAnsweredBy csr_attrs_der r w peer csr cert der hp hc (inl e) h =
      ground (arith, e, hp, hc, issue_and_respond_lem r peer csr cert der w h)
  serve-IsAnsweredBy csr_attrs_der r w peer csr cert der hp hc (inr (e, same)) h =
      let matches = identities_match_of_eq P.ip_string P.url_string peer csr same in
      ground (arith, e, hp, hc, matches, issue_and_respond_lem r peer csr cert der w h)
