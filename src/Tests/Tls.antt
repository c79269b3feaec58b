-- ===== src/Tests/Tls.antt =====
-- A host whose files all hold one certificate.
use est.Common.{◌≡◌, refl, [], ◌∷◌, ascii, ok}
use est.Tls.{TlsTools}
use est.Estapi.Tls.{
  ClientAuth, version_tls12, TlsConfig, read_client_ca, read_client_cas, build_tls_config,
}
use est.Tests.Data.{cert, cert_der}

abbrev pub tls_tools : TlsTools
tls_tools = record {
  KeyPair = Unit {0};
  load_key_pair = λ cert_file key_file. ok tt;
  read_file = λ f. ok (cert_der 5);
  certs_from_pem = λ pem. cert 5 ∷ [];
}

abbrev config : TlsConfig tls_tools
config = record {
  certificate = tt;
  client_auth = ClientAuth.verify_client_cert_if_given;
  client_cas = cert 5 ∷ cert 5 ∷ [];
  min_version = version_tls12;
}

built : build_tls_config tls_tools [] [] (ascii "a" ∷ ascii "b" ∷ []) ≡ ok config
unfolding build_tls_config read_client_cas read_client_ca
built = refl
