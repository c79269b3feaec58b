-- ===== src/Ca/Openssl/Laws.antt =====
-- What the openssl backend hands back, and what it leaves on the disk.
use est.Common.{◌≡◌, refl, arith, false, [], none, some, Bytes, str_eq_iff, ok}
use est.X509.{Certificate, CertificateRequest}
use est.Fs.{File, Files, update, remove_file}
use est.Ca.Openssl.{
  Tools, Calls, OpensslCa, openssl_command, private_file, with_cert_file, with_csr_file,
  openssl_issue_certificate,
}

module _ (T : Tools) where
  -- The files that the command is run on.
  abbrev pub input_files : CertificateRequest → Calls → Files → Files
  input_files csr k files = update k.cert_name (private_file []) (
      update k.csr_name (private_file (T.pem_encode csr.raw))
        (update k.csr_name (private_file []) files))

  -- The CSR's signature verifies, the command ran on its PEM and succeeded, and the certificate is
  -- what the command wrote, and no CA certificate.
  pub record IsSigned (c : OpensslCa) (csr : CertificateRequest) (k : Calls) (files : Files)
      (cert : Certificate) : Type 0 where
    pub verified : T.check_signature csr ≡ none
    pub ran : (T.run (openssl_command c k.csr_name k.cert_name) (input_files csr k files)).0 ≡ none
    pub file : File
    pub output :
        (T.run (openssl_command c k.csr_name k.cert_name) (input_files csr k files)).1 k.cert_name
        ≡ some file
    pub block : Bytes
    pub decoded : T.pem_decode file.content ≡ some block
    pub parsed : T.parse_certificate block ≡ ok cert
    pub is_ca : cert.is_ca ≡ false

  -- Whichever of the other calls fails, a call leaves neither of its temp files, if their names were
  -- new and neither deferred removal fails.
  pub openssl_issue_certificate_cleans_up :
      (c : OpensslCa) (csr : CertificateRequest) (k : Calls) (files : Files)
      → files k.csr_name ≡ none
      → files k.cert_name ≡ none
      → k.remove_csr ≡ none
      → k.remove_cert ≡ none
      → ((openssl_issue_certificate T c csr k files).1 k.csr_name ≡ none)
        × ((openssl_issue_certificate T c csr k files).1 k.cert_name ≡ none)
  unfolding openssl_issue_certificate with_csr_file with_cert_file remove_file
  openssl_issue_certificate_cleans_up c csr k files h1 h2 r1 r2 =
      let a = (str_eq_iff k.csr_name k.csr_name).1 refl in
      let b = (str_eq_iff k.cert_name k.cert_name).1 refl in
      (ground (arith, h1, r1, a), ground (arith, h2, r1, r2, a, b))
