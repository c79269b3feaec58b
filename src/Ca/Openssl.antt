-- ===== src/Ca/Openssl.antt =====
-- The backend of internal/ca/openssl/openssl.go, which runs `openssl ca` on temp files. The lock
-- around the command is in the child Lock; here the command runs as a whole.
pub mod Laws
pub mod Backend
pub mod Lock
use est.Common.{
  ℕ, Bool, true, false, not, List, [], ◌∷◌, Option, none, some, Bytes, ascii, take, is_some, Error,
  invalid_csr_signature, new, wrap, Result, ok, err, context, require, guard, ◌>>=◌, ◌>>◌,
  if◌then◌else◌,
}
use est.X509.{Certificate, CertificateRequest}
use est.Fs.{File, Files, update, remove_file}

-- What the backend calls of `crypto/x509` and `encoding/pem`, and the command: `run` maps the words
-- of the command line and the files to the command's error and the files that it leaves.
pub record Tools : Type 0 where
  pub check_signature : CertificateRequest → Option Error
  pub parse_certificate : Bytes → Result Certificate
  -- `pem.Encode` of a block of type CERTIFICATE REQUEST
  pub pem_encode : Bytes → Bytes
  pub pem_decode : Bytes → Option Bytes
  pub run : List Bytes → Files → Option Error × Files

-- What one call meets: the names of the two temp files, and the errors. A write that fails has
-- written some bytes.
pub record Calls : Type 0 where
  pub csr_name : Bytes
  pub create_csr : Option Error
  pub remove_csr : Option Error
  pub write : Option (ℕ × Error)
  pub close : Option Error
  pub cert_name : Bytes
  pub create_cert : Option Error
  pub remove_cert : Option Error
  pub read : Option Error

-- `CA`
pub record OpensslCa : Type 0 where
  pub openssl_path : Bytes
  pub config_file : Bytes
  pub ca_cert : Certificate
  pub extensions_section : Bytes

-- `NewCA`
unfoldable pub new_openssl_ca : Bytes → Bytes → Certificate → Bytes → OpensslCa
new_openssl_ca openssl_path config_file ca_cert extensions_section = record {
  openssl_path = openssl_path;
  config_file = config_file;
  ca_cert = ca_cert;
  extensions_section = extensions_section;
}

-- The name of the program and its arguments.
unfoldable pub openssl_command : OpensslCa → Bytes → Bytes → List Bytes
openssl_command c csr_path cert_path =
    c.openssl_path
    ∷ ascii "ca"
    ∷ ascii "-batch"
    ∷ ascii "-config"
    ∷ c.config_file
    ∷ ascii "-in"
    ∷ csr_path
    ∷ ascii "-out"
    ∷ cert_path
    ∷ ascii "-notext"
    ∷ ascii "-extensions"
    ∷ c.extensions_section
    ∷ []

abbrev pub private_file : Bytes → Option File
private_file bytes = some (record { content = bytes; perm = 0o600 })

module _ (T : Tools) where
  -- `cert_pem` is what `os.ReadFile` returns for the path.
  unfoldable pub load_ca_certificate : Result Bytes → Result Certificate
  load_ca_certificate cert_pem = do
    text ← context (ascii "openssl: read CA certificate") cert_pem
    block ← require (T.pem_decode text) (new (ascii "openssl: no PEM block found"))
    context (ascii "openssl: parse CA certificate") (T.parse_certificate block)

  unfoldable pub run_openssl_ca : OpensslCa → Bytes → Bytes → Files → Result (Unit {0}) × Files
  run_openssl_ca c csr_path cert_path files =
      let (failed, files) = T.run (openssl_command c csr_path cert_path) files in
      elim failed [
        | none ↦ (ok tt, files)
        | some e ↦ (err (wrap (ascii "openssl: openssl ca failed") e), files)
      ]

  -- `os.ReadFile` of the path, after the command.
  unfoldable pub read_cert : Option Error → Bytes → Files → Result Bytes
  read_cert (some e) path files = err e
  read_cert none path files = elim (files path) [
    | none ↦ err (new (ascii "no such file or directory"))
    | some f ↦ ok f.content
  ]

  -- From `os.ReadFile(certPath)` to the end.
  unfoldable pub check_issued : Result Bytes → Result Certificate
  check_issued cert_pem = do
    text ← context (ascii "openssl: read issued certificate") cert_pem
    block ← require (T.pem_decode text) (new (ascii "openssl: no PEM block in openssl ca output"))
    cert ← context (ascii "openssl: parse issued certificate") (T.parse_certificate block)
    guard (not cert.is_ca) (new (ascii "openssl: issued certificate has CA:TRUE"))
    ok cert

  -- From the call of `runOpenSSLCA`.
  unfoldable pub run_and_read : OpensslCa → Calls → Files → Result Certificate × Files
  run_and_read c k files =
      let (r, files) = run_openssl_ca c k.csr_name k.cert_name files in
      elim r [
        | err e ↦ (err e, files)
        | ok _ ↦ (check_issued (read_cert k.read k.cert_name files), files)
      ]

  -- From the second `os.CreateTemp`, with the deferred removal of that file, whose
  -- error is ignored.
  unfoldable pub with_cert_file : OpensslCa → Calls → Files → Result Certificate × Files
  with_cert_file c k files = elim k.create_cert [
    | some e ↦ (err (wrap (ascii "openssl: create temp cert file") e), files)
    | none ↦
        let (r, files) = run_and_read c k (update k.cert_name (private_file []) files) in
        (r, remove_file k.remove_cert k.cert_name files)
  ]

  -- From `pem.Encode`, where the file has been created. It is closed before the errors are looked at.
  unfoldable pub with_csr_file :
      OpensslCa → CertificateRequest → Calls → Files → Result Certificate × Files
  with_csr_file c csr k files = elim k.write [
    | some (n, e) ↦ (
      err (wrap (ascii "openssl: write temp CSR file") e),
      update k.csr_name (private_file (take n (T.pem_encode csr.raw))) files,
    )
    | none ↦
        let files = update k.csr_name (private_file (T.pem_encode csr.raw)) files in
        elim k.close [
          | some e ↦ (err (wrap (ascii "openssl: close temp CSR file") e), files)
          | none ↦ with_cert_file c k files
        ]
  ]

  -- `IssueCertificate`, with the deferred removal of the CSR's file, whose error is ignored.
  unfoldable pub openssl_issue_certificate :
      OpensslCa → CertificateRequest → Calls → Files → Result Certificate × Files
  openssl_issue_certificate c csr k files = elim (T.check_signature csr) [
    | some e ↦ (err invalid_csr_signature, files)
    | none ↦ elim k.create_csr [
      | some e ↦ (err (wrap (ascii "openssl: create temp CSR file") e), files)
      | none ↦
          let (r, files) = with_csr_file c csr k (update k.csr_name (private_file []) files) in
          (r, remove_file k.remove_csr k.csr_name files)
    ]
  ]

  unfoldable pub openssl_ca_certificates : OpensslCa → Result (List (Option Certificate))
  openssl_ca_certificates c = ok (some c.ca_cert ∷ [])
