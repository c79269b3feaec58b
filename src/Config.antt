-- ===== src/Config.antt =====
-- internal/config/config.go: the configuration and its check. A pointer that may be nil is an
-- `Option`. The JSON of the file is read by `encoding/json` and is not modelled.
pub mod Load
pub mod Laws
pub mod Validated
pub mod Defaults
pub mod Complete
pub mod Attrs
use est.Common.{
  ℤ, pos, negsuc, Bool, true, false, not, ◌&&◌, ◌||◌, List, [], ◌∷◌, ◌++◌, Option, none, some,
  Bytes, ascii, str_eq, is_empty, ltb, Error, new, wrap, Result, ok, err, ◌>>=◌, ◌>>◌, guard,
  require, context, if◌then◌else◌,
}

pub record EjbcaCaConfig : Type 0 where
  pub base_url : Bytes
  pub client_cert_file : Bytes
  pub client_key_file : Bytes
  pub server_ca_file : Bytes
  pub ca_name : Bytes
  pub ca_subject_dn : Bytes
  pub certificate_profile_name : Bytes
  pub end_entity_profile_name : Bytes

pub record OpenSslCaConfig : Type 0 where
  pub openssl_path : Bytes
  pub config_file : Bytes
  pub extensions_section : Bytes

pub record KeyAlgorithmConfig : Type 0 where
  pub oid : Bytes
  pub curve_oid : Bytes
  pub rsa_modulus_bits : ℤ

pub record ExtensionConfig : Type 0 where
  pub oid : Bytes
  pub critical : Bool
  pub value_hex : Bytes

pub record RdnConfig : Type 0 where
  pub oid : Bytes
  pub value : Option Bytes

pub record TemplateExtensionConfig : Type 0 where
  pub oid : Bytes
  pub critical : Bool
  pub value_hex : Option Bytes

pub record TemplateConfig : Type 0 where
  pub subject : List RdnConfig
  pub key_type : Option KeyAlgorithmConfig
  pub extensions : List TemplateExtensionConfig

pub record CsrAttrsConfig : Type 0 where
  pub challenge_password : Bool
  pub key_algorithm : Option KeyAlgorithmConfig
  pub required_extensions : List ExtensionConfig
  pub extra_oids : List Bytes
  pub template : Option TemplateConfig

-- `cert_validity` is in nanoseconds.
pub record Config : Type 0 where
  pub listen_addr : Bytes
  pub server_cert_file : Bytes
  pub server_key_file : Bytes
  pub client_ca_files : List Bytes
  pub store_dir : Bytes
  pub cert_validity : ℤ
  pub ca_backend : Bytes
  pub ca_cert_file : Bytes
  pub ca_key_file : Bytes
  pub openssl_ca : Option OpenSslCaConfig
  pub ejbca_ca : Option EjbcaCaConfig
  pub csr_attrs : Option CsrAttrsConfig

-- What `Validate` depends on outside the configuration: the errors of `os.Stat` and `exec.LookPath`,
-- and the order in which Go ranges over a map.
pub record Host : Type 0 where
  pub stat : Bytes → Option Error
  pub look_path : Bytes → Option Error
  pub range : List (Bytes × Bytes) → List (Bytes × Bytes)

unfoldable pub default_backend : Config → Config
default_backend c = if is_empty c.ca_backend then record c { ca_backend = ascii "local" } else c

unfoldable pub is_backend : Bytes → Bool
is_backend name =
    str_eq name (ascii "local") || str_eq name (ascii "openssl") || str_eq name (ascii "ejbca")

unfoldable pub is_positive : ℤ → Bool
is_positive (pos n) = ltb 0 n
is_positive (negsuc n) = false

-- The loop over a map from fields to values.
unfoldable pub check_required : List (Bytes × Bytes) → Result (Unit {0})
check_required [] = ok tt
check_required ((field, value) ∷ fields) =
    let rest = check_required fields in
    if is_empty value then err (new (ascii "config: " ++ (field ++ ascii " is required"))) else rest

abbrev pub required_fields : Config → List (Bytes × Bytes)
required_fields c =
    (ascii "listen_addr", c.listen_addr)
    ∷ (ascii "server_cert_file", c.server_cert_file)
    ∷ (ascii "server_key_file", c.server_key_file)
    ∷ (ascii "store_dir", c.store_dir)
    ∷ []

abbrev pub required_ejbca_fields : EjbcaCaConfig → List (Bytes × Bytes)
required_ejbca_fields e =
    (ascii "ejbca_ca.base_url", e.base_url)
    ∷ (ascii "ejbca_ca.client_cert_file", e.client_cert_file)
    ∷ (ascii "ejbca_ca.client_key_file", e.client_key_file)
    ∷ (ascii "ejbca_ca.ca_name", e.ca_name)
    ∷ (ascii "ejbca_ca.ca_subject_dn", e.ca_subject_dn)
    ∷ (ascii "ejbca_ca.certificate_profile_name", e.certificate_profile_name)
    ∷ (ascii "ejbca_ca.end_entity_profile_name", e.end_entity_profile_name)
    ∷ []

-- The two defaults of the openssl backend.
unfoldable pub default_openssl : OpenSslCaConfig → OpenSslCaConfig
default_openssl o = record o {
  openssl_path = if is_empty o.openssl_path then ascii "openssl" else o.openssl_path;
  extensions_section =
      if is_empty o.extensions_section then ascii "est_extensions" else o.extensions_section;
}

module _ (H : Host) where
  -- The checks before the `switch`.
  unfoldable pub check_common : Config → Result (Unit {0})
  check_common c = do
    guard (is_backend c.ca_backend)
        (new (ascii "config: ca_backend must be \"local\", \"openssl\", or \"ejbca\""))
    check_required (H.range (required_fields c))
    guard (not (is_empty c.client_ca_files))
        (new (ascii "config: client_ca_files must contain at least one CA bundle"))
    guard (is_positive c.cert_validity)
        (new (ascii "config: cert_validity must be a positive duration"))

  -- The files that a case of the `switch` appends.
  unfoldable pub local_files : Config → Result (List Bytes)
  local_files c = do
    guard (not (is_empty c.ca_cert_file))
        (new (ascii "config: ca_cert_file is required when ca_backend is \"local\""))
    guard (not (is_empty c.ca_key_file))
        (new (ascii "config: ca_key_file is required when ca_backend is \"local\""))
    ok (c.ca_cert_file ∷ c.ca_key_file ∷ [])

  -- From the test of `ConfigFile`; the changed section is stored before `LookPath` is called.
  unfoldable pub openssl_section_files : Config → OpenSslCaConfig → Result (List Bytes) × Config
  openssl_section_files c o =
      if is_empty o.config_file
      then (err (new (ascii "config: openssl_ca.config_file is required")), c)
      else let o' = default_openssl o in
        let c' = record c { openssl_ca = some o' } in
        elim (H.look_path o'.openssl_path) [
          | some e ↦ (err (wrap (ascii "config: openssl_ca.openssl_path") e), c')
          | none ↦ (ok (c.ca_cert_file ∷ o'.config_file ∷ []), c')
        ]

  unfoldable pub openssl_files : Config → Result (List Bytes) × Config
  openssl_files c =
      if is_empty c.ca_cert_file
      then (err (new (ascii "config: ca_cert_file is required when ca_backend is \"openssl\"")), c)
      else elim c.openssl_ca [
        | none ↦
            (err (new (ascii "config: openssl_ca is required when ca_backend is \"openssl\"")), c)
        | some o ↦ openssl_section_files c o
      ]

  unfoldable pub ejbca_files : Config → Result (List Bytes)
  ejbca_files c = do
    e ← require c.ejbca_ca (new (ascii "config: ejbca_ca is required when ca_backend is \"ejbca\""))
    check_required (H.range (required_ejbca_fields e))
    ok (
        e.client_cert_file
        ∷ e.client_key_file
        ∷ (if is_empty e.server_ca_file then [] else e.server_ca_file ∷ []))

  unfoldable pub backend_files : Config → Result (List Bytes) × Config
  backend_files c =
      if str_eq c.ca_backend (ascii "local")
      then (local_files c, c)
      else if str_eq c.ca_backend (ascii "openssl")
      then openssl_files c
      else if str_eq c.ca_backend (ascii "ejbca")
      then (ejbca_files c, c)
      else (ok [], c)

  -- The loop that calls `os.Stat`.
  unfoldable pub check_files : List Bytes → Result (Unit {0})
  check_files [] = ok tt
  check_files (f ∷ files) =
      let rest = check_files files in
      elim (H.stat f) [ none ↦ rest | some e ↦ err (wrap (ascii "config: " ++ f) e) ]

  abbrev pub server_files : Config → List Bytes
  server_files c = c.server_cert_file ∷ c.server_key_file ∷ c.client_ca_files

  -- `Validate`, with the configuration that it leaves.
  unfoldable pub validate : Config → Result (Unit {0}) × Config
  validate c =
      let c = default_backend c in
      elim (check_common c) [
        | err e ↦ (err e, c)
        | ok _ ↦
            let (files, c') = backend_files c in
            elim files [
              | err e ↦ (err e, c')
              | ok more ↦ (check_files (server_files c ++ more), c')
            ]
      ]
