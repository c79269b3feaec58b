-- ===== src/Estd/Issued.antt =====
-- What a server of cmd/estd/main.go issues, whatever backend it has.
use est.Common.{◌≡◌, [], ◌∷◌, some, none, false, Bytes, ok}
use est.X509.{Certificate, CertificateRequest}
use est.Pkcs7.{encode_certs_only}
use est.Ca.Serial.{random_serial_source}
use est.Ca.Local.Laws
use est.Ca.Local.Laws.{IsServerControlled}
use est.Ca.Openssl.Laws.{IsSigned}
use est.Ca.Ejbca.Laws.{IsEnrolled}
use est.Estapi.Encoding.{Response, decode_csr_body, write_pkcs7_response}
use est.Estapi.Server.{Request}
use est.Estd
use est.Estd.{Backend}
use est.Estd.Handler.{Libraries, ca_backend_of}

module _ (D : Estd.Platform) (L : Laws.IsLawful D.crypto) (A : Libraries) where
  -- The signature of a CSR verifies, as the backend checks it.
  abbrev pub IsVerified : Backend D → CertificateRequest → Type 0
  IsVerified (Backend.local ca) csr = D.crypto.check_signature csr ≡ none
  IsVerified (Backend.openssl ca) csr = D.openssl.check_signature csr ≡ none
  IsVerified (Backend.ejbca client ca) csr = A.rest.check_signature csr ≡ none

  -- The certificate is the one that the backend makes for the CSR: the local CA signs the CSR's names,
  -- the openssl command ran on the CSR's PEM and wrote it, or EJBCA answered with it to the CSR's PEM.
  abbrev pub IsMadeFor :
      (b : Backend D) (csr : CertificateRequest) (state : (ca_backend_of D A b).State)
      (cert : Certificate)
      → Type 0
  IsMadeFor (Backend.local ca) csr state cert =
      IsServerControlled L random_serial_source ca csr state cert
  IsMadeFor (Backend.openssl ca) csr state cert =
      IsSigned D.openssl ca csr (state.calls state.used) state.files cert
  IsMadeFor (Backend.ejbca client ca) csr state cert = IsEnrolled A.rest ca state csr cert

  -- The answer is the message of one certificate that the backend made, in its state before the
  -- request, for the CSR in the body, whose signature verifies, and no CA certificate.
  pub record IsAnsweredWithLeaf (s : Estd.Server D) (r : Request)
      (state : (ca_backend_of D A s.backend).State) (out : Response) : Type 0 where
    pub csr : CertificateRequest
    pub decoded : decode_csr_body A.endpoints.parse_certificate_request r.body ≡ ok csr
    pub verified : IsVerified s.backend csr
    pub cert : Certificate
    pub made : IsMadeFor s.backend csr state cert
    pub is_ca : cert.is_ca ≡ false
    pub der : Bytes
    pub encoded : encode_certs_only A.endpoints.cryptobyte (some cert ∷ []) ≡ ok der
    pub response : out ≡ write_pkcs7_response der
