-- ===== src/Ca.antt =====
-- internal/ca/ca.go: the interface of a CA backend, over whatever state the backend has.
pub mod Serial
pub mod Local
pub mod Openssl
pub mod Ejbca
use est.Common.{List, Option, Error, Result, Bool, true, false, invalid_csr_signature, new, wrap}
use est.X509.{Certificate, CertificateRequest}

-- `CABackend`. A pointer in the list may be nil; an issued certificate is not.
pub record CaBackend : Type 1 where
  pub State : Type 0
  pub ca_certificates : State → Result (List (Option Certificate)) × State
  pub issue_certificate : CertificateRequest → State → Result Certificate × State

-- `errors.Is(err, ca.ErrInvalidCSRSignature)`
unfoldable pub is_invalid_csr_signature : Error → Bool
is_invalid_csr_signature invalid_csr_signature = true
is_invalid_csr_signature (new message) = false
is_invalid_csr_signature (wrap prefix e) = is_invalid_csr_signature e
