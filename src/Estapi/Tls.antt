-- ===== src/Estapi/Tls.antt =====
-- internal/estapi/tls.go: the TLS configuration of the server. A pool is the list of its certificates.
pub mod Laws
use est.Common.{
  ℕ, List, [], ◌∷◌, ◌++◌, Bytes, ascii, not, is_empty, Error, new, Result, ok, err, context, guard,
  ◌>>=◌, ◌>>◌,
}
use est.X509.{Certificate}
use est.Tls.{TlsTools}

-- `tls.ClientAuthType`
pub data ClientAuth : Type 0 where
  no_client_cert request_client_cert require_any_client_cert : ClientAuth
  verify_client_cert_if_given require_and_verify_client_cert : ClientAuth

-- `tls.VersionTLS12`
abbrev pub version_tls12 : ℕ
version_tls12 = 0x0303

module _ (T : TlsTools) where
  -- The fields of `tls.Config` that are set.
  pub record TlsConfig : Type 0 where
    pub certificate : T.KeyPair
    pub client_auth : ClientAuth
    pub client_cas : List Certificate
    pub min_version : ℕ

  -- One round of the loop: the certificates of a file.
  unfoldable pub read_client_ca : Bytes → Result (List Certificate)
  read_client_ca file = do
    pem_bytes ← context (ascii "estapi: read client CA file") (T.read_file file)
    guard (not (is_empty (T.certs_from_pem pem_bytes)))
        (new (ascii "estapi: no certificates found"))
    ok (T.certs_from_pem pem_bytes)

  -- The loop over `clientCAFiles`.
  unfoldable pub read_client_cas : List Certificate → List Bytes → Result (List Certificate)
  read_client_cas pool [] = ok pool
  read_client_cas pool (f ∷ files) = do
    certs ← read_client_ca f
    read_client_cas (pool ++ certs) files

  unfoldable pub build_tls_config : Bytes → Bytes → List Bytes → Result TlsConfig
  build_tls_config server_cert_file server_key_file client_ca_files = do
    cert ←
        context (ascii "estapi: load server key pair")
          (T.load_key_pair server_cert_file server_key_file)
    pool ← read_client_cas [] client_ca_files
    ok (record {
      certificate = cert;
      client_auth = ClientAuth.verify_client_cert_if_given;
      client_cas = pool;
      min_version = version_tls12;
    })
