-- ===== src/Tests/Openssl.antt =====
-- The openssl backend over a command that writes a fixed certificate to its output file.
use est.Common.{◌≡◌, refl, [], ◌∷◌, none, some, Bytes, ascii}
use est.Fs.{update}
use est.Ca.Openssl.{Tools, Calls, OpensslCa, private_file, openssl_issue_certificate}
use est.Ca.Openssl.Laws.{openssl_issue_certificate_cleans_up}
use est.Tests.Data.{cert, cert_der, parse_certificate, csr_der, request_of, no_files}

abbrev cert_name : Bytes
cert_name = b'o' ∷ []

abbrev pub tools : Tools
tools = record {
  check_signature = λ csr. none;
  parse_certificate = parse_certificate;
  pem_encode = λ der. der;
  pem_decode = λ text. some text;
  run = λ command files. (none, update cert_name (private_file (cert_der 7)) files);
}

abbrev pub calls : Calls
calls = record {
  csr_name = b'i' ∷ [];
  create_csr = none;
  remove_csr = none;
  write = none;
  close = none;
  cert_name = cert_name;
  create_cert = none;
  remove_cert = none;
  read = none;
}

abbrev pub openssl_ca : OpensslCa
openssl_ca = record {
  openssl_path = ascii "openssl";
  config_file = ascii "openssl.cnf";
  ca_cert = cert 1;
  extensions_section = ascii "est_extensions";
}

openssl_issue_certificate_cleans_up_example :
    ((openssl_issue_certificate tools openssl_ca (request_of csr_der) calls no_files).1 (b'i' ∷ [])
      ≡ none)
    × ((openssl_issue_certificate tools openssl_ca (request_of csr_der) calls no_files).1 cert_name
        ≡ none)
openssl_issue_certificate_cleans_up_example =
    openssl_issue_certificate_cleans_up tools openssl_ca (request_of csr_der) calls no_files refl
      refl refl refl
