-- ===== src/Estd.antt =====
-- cmd/estd/main.go: how the server is put together, and how it ends.
pub mod Chosen
pub mod Started
pub mod Exit
pub mod Handler
pub mod Serving
pub mod Issued
use est.Common.{
  ℕ, Bool, List, Option, none, some, Bytes, ascii, str_eq, is_empty, Error, Result, ok, err, ◌>>=◌,
  if◌then◌else◌,
}
use est.X509.{Certificate}
use est.Cryptobyte.{Cryptobyte}
use est.Tls.{TlsTools}
use est.Ca.Local.{Crypto, LocalCa, load_ca_key_pair, new_local_ca}
use est.Ca.Openssl.{Tools, OpensslCa, new_openssl_ca, load_ca_certificate}
use est.Ca.Ejbca.{EjbcaCa}
use est.Ca.Ejbca.Client.{EjbcaOptions, HttpClient, new_ejbca}
use est.Config.{Config, OpenSslCaConfig, EjbcaCaConfig, Host, validate}
use est.Config.Load.{load}
use est.Config.Attrs.{csr_attrs_options}
use est.CsrAttrs.Encode.{PkixExtension, encode_csr_attrs}
use est.Store.FileStore.{FileStore, new_file_store}
use est.Estapi.Tls.{TlsConfig, build_tls_config}

-- What start-up calls of libraries and of the operating system.
pub record Platform : Type 1 where
  pub host : Host
  pub tls : TlsTools
  pub crypto : Crypto
  pub openssl : Tools
  pub cryptobyte : Cryptobyte
  -- `asn1.Marshal` of extensions, `json.Unmarshal` of the configuration, `os.MkdirAll`
  pub marshal : List PkixExtension → Result Bytes
  pub unmarshal : Bytes → Result Config
  pub mkdir_all : Bytes → Option Error

-- `http.ErrServerClosed`, or another error of `ListenAndServeTLS`.
pub data ListenError : Type 0 where
  server_closed : ListenError
  failed : Error → ListenError

-- Which case of the `select` runs: the server ended with its error, or a signal came and `Shutdown`
-- returned its error.
pub data Ending : Type 0 where
  listen_returned : Option ListenError → Ending
  signalled : Option Error → Ending

unfoldable pub wait_for_end : Ending → Result (Unit {0})
wait_for_end (listen_returned none) = ok tt
wait_for_end (listen_returned (some server_closed)) = ok tt
wait_for_end (listen_returned (some (failed e))) = err e
wait_for_end (signalled none) = ok tt
wait_for_end (signalled (some e)) = err e

-- The options that `run` passes to `ejbcaca.NewCA`.
unfoldable pub ejbca_options : EjbcaCaConfig → EjbcaOptions
ejbca_options e = record {
  base_url = e.base_url;
  client_cert_file = e.client_cert_file;
  client_key_file = e.client_key_file;
  server_ca_file = e.server_ca_file;
  ca_name = e.ca_name;
  ca_subject_dn = e.ca_subject_dn;
  certificate_profile_name = e.certificate_profile_name;
  end_entity_profile_name = e.end_entity_profile_name;
}

module _ (P : Platform) where
  -- The value of `caBackend`. The serials of the local CA are random.
  pub data Backend : Type 0 where
    local : LocalCa P.crypto → Backend
    openssl : OpensslCa → Backend
    ejbca : HttpClient P.tls → EjbcaCa → Backend

  -- What `run` holds when it starts to listen.
  pub record Server : Type 0 where
    pub listen_addr : Bytes
    pub backend : Backend
    pub file_store : FileStore
    pub tls_config : TlsConfig P.tls
    pub csr_attrs_der : Bytes

  -- `config.Load` and `Validate`.
  unfoldable pub load_valid : Bytes → Result Config
  load_valid path = do
    cfg ← load P.tls.read_file P.unmarshal path
    (let (r, cfg') = validate P.host cfg in elim r [ ok _ ↦ ok cfg' | err e ↦ err e ])

  unfoldable pub local_of : Config → Result Backend
  local_of c = do
    (ca_cert, ca_key) ←
        load_ca_key_pair P.crypto (P.tls.read_file c.ca_cert_file) (P.tls.read_file c.ca_key_file)
    ok (local (new_local_ca P.crypto ca_cert ca_key c.cert_validity))

  unfoldable pub openssl_of : OpenSslCaConfig → Certificate → Backend
  openssl_of o ca_cert =
      openssl (new_openssl_ca o.openssl_path o.config_file ca_cert o.extensions_section)

  unfoldable pub ejbca_of : EjbcaCaConfig → Result Backend
  ejbca_of e = do (client, ca) ← new_ejbca P.tls (ejbca_options e); ok (ejbca client ca)

  -- The `switch` on `cfg.CABackend`; `none` is the panic of a nil pointer that is read.
  unfoldable pub choose_backend : Config → Option (Result Backend)
  choose_backend c =
      if str_eq c.ca_backend (ascii "openssl")
      then elim (load_ca_certificate P.openssl (P.tls.read_file c.ca_cert_file)) [
        | err e ↦ some (err e)
        | ok ca_cert ↦ elim c.openssl_ca [ none ↦ none | some o ↦ some (ok (openssl_of o ca_cert)) ]
      ]
      else if str_eq c.ca_backend (ascii "ejbca")
      then elim c.ejbca_ca [ none ↦ none | some e ↦ some (ejbca_of e) ]
      else some (local_of c)

  -- From `store.NewFileStore` to the server.
  unfoldable pub assemble : Config → Backend → Result Server
  assemble c backend = do
    file_store ← new_file_store (P.mkdir_all c.store_dir) c.store_dir
    tls_config ← build_tls_config P.tls c.server_cert_file c.server_key_file c.client_ca_files
    der ← encode_csr_attrs P.cryptobyte P.marshal (csr_attrs_options c.csr_attrs)
    ok (record {
      listen_addr = c.listen_addr;
      backend = backend;
      file_store = file_store;
      tls_config = tls_config;
      csr_attrs_der = der;
    })

  -- `run` up to `ListenAndServeTLS`.
  unfoldable pub start : Bytes → Option (Result Server)
  start path = elim (load_valid path) [
    | err e ↦ some (err e)
    | ok cfg ↦ elim (choose_backend cfg) [
      | none ↦ none
      | some chosen ↦ some (chosen >>= assemble cfg)
    ]
  ]

  unfoldable pub run : Bytes → Ending → Option (Result (Unit {0}))
  run path ending = elim (start path) [
    | none ↦ none
    | some started ↦ some (started >>= λ server. wait_for_end ending)
  ]

  -- The exit code of `main`.
  unfoldable pub main : Bytes → Ending → Option ℕ
  main config_path ending = if is_empty config_path then some 1 else elim (run config_path ending) [
    | none ↦ none
    | some (ok _) ↦ some 0
    | some (err e) ↦ some 1
  ]
