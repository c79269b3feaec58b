-- ===== src/Ca/Ejbca/Client.antt =====
-- `NewCA` of internal/ca/ejbca/ejbca.go: the backend and the HTTP client that it talks over.
use est.Common.{
  ℕ, ◌*◌, Option, none, some, List, Bytes, ascii, not, is_empty, new, Result, ok, context, guard,
  ◌>>=◌, ◌>>◌, if◌then◌else◌,
}
use est.X509.{Certificate}
use est.Tls.{TlsTools}
use est.Ca.Ejbca.{EjbcaCa, new_ejbca_ca}

-- `Options`
pub record EjbcaOptions : Type 0 where
  pub base_url : Bytes
  pub client_cert_file : Bytes
  pub client_key_file : Bytes
  pub server_ca_file : Bytes
  pub ca_name : Bytes
  pub ca_subject_dn : Bytes
  pub certificate_profile_name : Bytes
  pub end_entity_profile_name : Bytes

module _ (T : TlsTools) where
  -- `http.Client` with its transport: `root_cas` is `none` for the system's trust store, and the
  -- timeout is in nanoseconds.
  pub record HttpClient : Type 0 where
    pub certificate : T.KeyPair
    pub root_cas : Option (List Certificate)
    pub timeout : ℕ

  -- The block that reads `ServerCAFile`, if it is set.
  unfoldable pub server_roots : Bytes → Result (Option (List Certificate))
  server_roots file = if is_empty file then ok none else (do
    pem_bytes ← context (ascii "ejbca: read server_ca_file") (T.read_file file)
    guard (not (is_empty (T.certs_from_pem pem_bytes))) (new (ascii "ejbca: no certificates found"))
    ok (some (T.certs_from_pem pem_bytes)))

  unfoldable pub new_ejbca : EjbcaOptions → Result (HttpClient × EjbcaCa)
  new_ejbca opts = do
    client_cert ←
        context (ascii "ejbca: load client key pair")
          (T.load_key_pair opts.client_cert_file opts.client_key_file)
    roots ← server_roots opts.server_ca_file
    ok (
      record { certificate = client_cert; root_cas = roots; timeout = 30 * 1000000000 },
      new_ejbca_ca (record {
        base_url = opts.base_url;
        ca_name = opts.ca_name;
        ca_subject_dn = opts.ca_subject_dn;
        certificate_profile_name = opts.certificate_profile_name;
        end_entity_profile_name = opts.end_entity_profile_name;
      }),
    )
