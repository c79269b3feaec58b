-- ===== src/Ca/Openssl/Backend.antt =====
-- `CA` of internal/ca/openssl as a `CABackend`.
use est.Common.{ℕ, ◌+◌}
use est.Fs.{Files}
use est.Ca.{CaBackend}
use est.Ca.Openssl.{Tools, Calls, OpensslCa, openssl_ca_certificates, openssl_issue_certificate}

-- The files, and what the calls of IssueCertificate meet, one after the other.
pub record OpensslState : Type 0 where
  pub files : Files
  pub calls : ℕ → Calls
  pub used : ℕ

abbrev pub openssl_backend : Tools → OpensslCa → CaBackend
openssl_backend T c = record {
  State = OpensslState;
  ca_certificates = λ s. (openssl_ca_certificates T c, s);
  issue_certificate = λ csr s.
      let (issued, files) = openssl_issue_certificate T c csr (s.calls s.used) s.files in
      (issued, record s { files = files; used = s.used + 1 });
}
