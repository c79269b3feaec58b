-- ===== src/Estapi/Server/Concurrent/Sound.antt =====
-- What holds of a goroutine by how far it is, and that no other undoes it.
use est.Common.{ℕ, ℤ, ◌≡◌, ◌∙◌, ◌⊎◌, true, [], ◌∷◌, some, Bytes, ok}
use est.X509.{Certificate, CertificateRequest}
use est.Pkcs7.{encode_certs_only}
use est.Ca.{CaBackend}
use est.Store.{Store, IsLawful}
use est.Estapi.Encoding.{Response, decode_csr_body, write_pkcs7_response}
use est.Estapi.Identity.{peer_certificate, identities_match}
use est.Estapi.Server.{Platform, Request, Route, World, route}
use est.Estapi.Server.Concurrent.{Phase}

-- `owner` says which goroutine may be issued a certificate with a serial number.
module _ (P : Platform) (B : CaBackend) {S : Store} (L : IsLawful S) (owner : ℤ → ℕ) where
  -- The request showed a client certificate and held the CSR, and a `simplereenroll` a matching one.
  pub record IsAllowed (r : Request) (csr : CertificateRequest) : Type 0 where
    pub peer : Certificate
    pub authenticated : peer_certificate r.tls ≡ ok peer
    pub decoded : decode_csr_body P.parse_certificate_request r.body ≡ ok csr
    pub matches :
        route r.method r.path ≡ Route.simple_reenroll
        → identities_match P.ip_string P.url_string peer csr ≡ true

  -- The backend issued the certificate for the CSR of the request, in some state of it, with a serial
  -- number of the goroutine.
  pub record IsIssued (i : ℕ) (r : Request) (csr : CertificateRequest) (cert : Certificate)
      : Type 0 where
    pub allowed : IsAllowed r csr
    pub state : B.State
    pub issued : (B.issue_certificate csr state).0 ≡ ok cert
    pub owned : owner cert.serial_number ≡ i

  abbrev pub StoresCsr : S.State → CertificateRequest → Certificate → Type 0
  StoresCsr s csr cert = L.csr s cert.serial_number ≡ some csr.raw

  abbrev pub StoresCertificate : S.State → Certificate → Type 0
  StoresCertificate s cert = L.certificate s cert.serial_number ≡ some cert.raw

  -- What is answered is the message of a certificate that was issued for the request's CSR, and the
  -- store holds the bytes of both under its serial number.
  pub record IsEnrolledIn (s : S.State) (i : ℕ) (r : Request) (out : Response) : Type 0 where
    pub csr : CertificateRequest
    pub cert : Certificate
    pub issued : IsIssued i r csr cert
    pub stored_csr : StoresCsr s csr cert
    pub stored : StoresCertificate s cert
    pub der : Bytes
    pub encoded : encode_certs_only P.cryptobyte (some cert ∷ []) ≡ ok der
    pub response : out ≡ write_pkcs7_response der

  abbrev pub IsEnrollment : Request → Type 0
  IsEnrollment r =
      (route r.method r.path ≡ Route.simple_enroll)
      ⊎ (route r.method r.path ≡ Route.simple_reenroll)

  -- What holds of a goroutine by how far it is.
  abbrev pub IsSound : S.State → ℕ → Phase → Type 0
  IsSound s i Phase.waiting = Unit {0}
  IsSound s i (Phase.arrived r) = Unit {0}
  IsSound s i (Phase.issuing r csr peer) = IsAllowed r csr
  IsSound s i (Phase.putting_csr r csr cert meta) = IsIssued i r csr cert
  IsSound s i (Phase.putting_certificate r cert meta) =
      (csr : CertificateRequest) × IsIssued i r csr cert × StoresCsr s csr cert
  IsSound s i (Phase.encoding r cert) =
      (csr : CertificateRequest) × IsIssued i r csr cert
      × StoresCsr s csr cert
      × StoresCertificate s cert
  IsSound s i (Phase.answered r out) = IsEnrollment r → out.status ≡ 200 → IsEnrolledIn s i r out

  -- What is stored under the serial numbers of a goroutine is the same in both states.
  pub record Keeps (i : ℕ) (s t : S.State) : Type 0 where
    pub csr : (k : ℤ) → owner k ≡ i → L.csr t k ≡ L.csr s k
    pub certificate : (k : ℤ) → owner k ≡ i → L.certificate t k ≡ L.certificate s k

  -- What holds of a goroutine is not undone where its serial numbers are kept.
  pub Keeps-IsSound :
      {s t : S.State} (i : ℕ) (p : Phase) → Keeps i s t → IsSound s i p → IsSound t i p
  Keeps-IsSound i Phase.waiting g h = tt
  Keeps-IsSound i (Phase.arrived r) g h = tt
  Keeps-IsSound i (Phase.issuing r csr peer) g h = h
  Keeps-IsSound i (Phase.putting_csr r csr cert meta) g h = h
  Keeps-IsSound i (Phase.putting_certificate r cert meta) g (csr, a, c) =
      (csr, a, g.csr cert.serial_number a.owned ∙ c)
  Keeps-IsSound i (Phase.encoding r cert) g (csr, a, c, k) =
      (csr, a, g.csr cert.serial_number a.owned ∙ c, g.certificate cert.serial_number a.owned ∙ k)
  Keeps-IsSound {s} {t} i (Phase.answered r out) g h = λ enrollment good.
      let e = h enrollment good in
      let n = e.cert.serial_number in
      record {
        csr = e.csr;
        cert = e.cert;
        issued = e.issued;
        stored_csr = g.csr n e.issued.owned ∙ e.stored_csr;
        stored = g.certificate n e.issued.owned ∙ e.stored;
        der = e.der;
        encoded = e.encoded;
        response = e.response;
      }

  -- Where the next step of a goroutine issues a certificate, its serial number is the goroutine's.
  abbrev pub IssuesOwn : ℕ → Phase → World B S → Type 0
  IssuesOwn i (Phase.issuing r csr peer) w =
      (cert : Certificate)
      → (B.issue_certificate csr w.ca).0 ≡ ok cert
      → owner cert.serial_number ≡ i
  IssuesOwn i _ w = Unit {0}
