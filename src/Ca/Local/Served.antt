-- ===== src/Ca/Local/Served.antt =====
-- What a client of a server with a local CA is answered.
use est.Common.{◌≡◌, ◌⊎◌, [], ◌∷◌, some, Bytes, ok}
use est.X509.{Certificate, CertificateRequest}
use est.Pkcs7.{encode_certs_only}
use est.Ca.Serial.{SerialSource}
use est.Ca.Local.{Crypto, LocalCa, LocalState}
use est.Ca.Local.Laws
use est.Ca.Local.Laws.{IsServerControlled, issue_certificate-IsServerControlled, local_backend}
use est.Store
use est.Store.{Store}
use est.Estapi.Encoding.{Response, decode_csr_body, write_pkcs7_response}
use est.Estapi.Server.{Platform, Request, Route, World, route, serve}
use est.Estapi.Server.Enroll.{serve_200}

module _ (P : Platform) {X : Crypto} (L : Laws.IsLawful X) (N : SerialSource) (l : LocalCa X)
    {S : Store} (K : Store.IsLawful S) where
  -- The answer is the message of one certificate, for the CSR in the body, whose usages the server
  -- chose and which is no CA certificate.
  pub record IsAnsweredWithControlled (r : Request) (s : LocalState X N) (out : Response)
      : Type 0 where
    pub csr : CertificateRequest
    pub decoded : decode_csr_body P.parse_certificate_request r.body ≡ ok csr
    pub cert : Certificate
    pub controlled : IsServerControlled L N l csr s cert
    pub der : Bytes
    pub encoded : encode_certs_only P.cryptobyte (some cert ∷ []) ≡ ok der
    pub response : out ≡ write_pkcs7_response der

  -- Whatever a client sends to a server with a local CA: what an enrollment answers with 200 is the
  -- message of a certificate whose key usages the server chose and which is no CA certificate, for
  -- the CSR in the body, whose signature verifies.
  pub serve-IsAnsweredWithControlled :
      (csr_attrs_der : Bytes) (r : Request) (w : World (local_backend X N l) S)
      → (route r.method r.path ≡ Route.simple_enroll)
        ⊎ (route r.method r.path ≡ Route.simple_reenroll)
      → let out = serve P (local_backend X N l) S csr_attrs_der r w in
        out.0.status ≡ 200 → IsAnsweredWithControlled r w.ca out.0
  serve-IsAnsweredWithControlled csr_attrs_der r w routed good =
      let (peer, csr, cert, _, decoded, enrolled) =
        serve_200 P (local_backend X N l) K csr_attrs_der r w routed good in
      record {
        csr = csr;
        decoded = decoded;
        cert = cert;
        controlled = issue_certificate-IsServerControlled L N l csr w.ca enrolled.issued;
        der = enrolled.der;
        encoded = enrolled.encoded;
        response = enrolled.response;
      }
