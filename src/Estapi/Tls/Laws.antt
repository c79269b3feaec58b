-- ===== src/Estapi/Tls/Laws.antt =====
-- Whom the TLS configuration of the server trusts.
use est.Common.{
  context-eq-ok, ◌≡◌, ◌≢◌, ap, ◌∙◌, arith, List, [], ◌∷◌, ◌++◌, append_assoc, append-nil, Bytes,
  ascii, All, ok, err, Result-cases, inl, inr, context, >>=-eq-ok,
}
use est.X509.{Certificate}
use est.Tls.{TlsTools}
use est.Estapi.Tls.{
  ClientAuth, version_tls12, TlsConfig, read_client_ca, read_client_cas, build_tls_config,
}

module _ (T : TlsTools) where
  -- The certificates in a file, and in several.
  abbrev pub certs_in : Bytes → List Certificate
  certs_in file = elim (T.read_file file) [ ok pem ↦ T.certs_from_pem pem | err e ↦ [] ]

  abbrev pub pool_of : List Bytes → List Certificate
  pool_of [] = []
  pool_of (f ∷ files) = certs_in f ++ pool_of files

  -- A file that gives a certificate.
  abbrev pub IsBundle : Bytes → Type 0
  IsBundle file = certs_in file ≢ []

  read_client_ca-certs_in :
      (f : Bytes) {certs : List Certificate}
      → read_client_ca T f ≡ ok certs
      → (certs ≡ certs_in f) × IsBundle f
  unfolding read_client_ca
  read_client_ca-certs_in f h = elim (Result-cases (T.read_file f)) [
    | inr (x, bad) ↦ absurd (ground (arith, h, bad))
    | inl (pem, read) ↦ (ground (arith, h, read), ground (arith, h, read))
  ]

  read_client_cas-pool_of :
      (pool : List Certificate) (files : List Bytes) {p : List Certificate}
      → read_client_cas T pool files ≡ ok p
      → (p ≡ pool ++ pool_of files) × All IsBundle files
  unfolding read_client_cas
  read_client_cas-pool_of pool [] h = (ground (arith, h, append-nil pool), tt)
  read_client_cas-pool_of pool (f ∷ files) h =
      let (certs, read, more) =
        >>=-eq-ok (read_client_ca T f) (λ certs. read_client_cas T (pool ++ certs) files) h in
      let (here, bundle) = read_client_ca-certs_in f read in
      let (rest, bundles) = read_client_cas-pool_of (pool ++ certs) files more in
      (
        rest
            ∙ append_assoc pool certs (pool_of files)
            ∙ ap (λ c. pool ++ (c ++ pool_of files)) here,
        (bundle, bundles),
      )

  -- What a configuration that is built demands of clients.
  pub record IsStrict (cert_file key_file : Bytes) (files : List Bytes) (cfg : TlsConfig T)
      : Type 0 where
    pub certificate : T.load_key_pair cert_file key_file ≡ ok cfg.certificate
    pub client_auth : cfg.client_auth ≡ ClientAuth.verify_client_cert_if_given
    pub client_cas : cfg.client_cas ≡ pool_of files
    pub min_version : cfg.min_version ≡ version_tls12
    pub bundles : All IsBundle files

  -- A configuration that is built has the key pair of the two files, and verifies client certificates
  -- that are given, against exactly the certificates of the client CA files, each of which has one,
  -- from TLS 1.2 on.
  pub build_tls_config-IsStrict :
      (cert_file key_file : Bytes) (files : List Bytes) {cfg : TlsConfig T}
      → build_tls_config T cert_file key_file files ≡ ok cfg
      → IsStrict cert_file key_file files cfg
  unfolding build_tls_config
  build_tls_config-IsStrict cert_file key_file files h =
      let load = ascii "estapi: load server key pair" in
      let (pair, loaded, rest) =
        >>=-eq-ok (context load (T.load_key_pair cert_file key_file)) _ h in
      let (pool, read, built) = >>=-eq-ok (read_client_cas T [] files) _ rest in
      let (whole, bundles) = read_client_cas-pool_of [] files read in
      record {
        certificate =
            ground (arith, built, context-eq-ok load (T.load_key_pair cert_file key_file) loaded);
        client_auth = ground (arith, built);
        client_cas = ground (arith, built, whole);
        min_version = ground (arith, built);
        bundles = bundles;
      }
