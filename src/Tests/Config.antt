-- ===== src/Tests/Config.antt =====
-- A configuration of the openssl backend without the optional parts.
use est.Common.{◌≡◌, refl, pos, [], ◌∷◌, none, some, ascii, str_eq, ok}
use est.Config.{
  Config, Host, default_backend, is_backend, is_positive, check_required, default_openssl,
  check_common, openssl_section_files, openssl_files, backend_files, check_files, validate,
}
use est.Config.Laws.{IsLawful}

-- Every file exists, and maps are ranged over in the order of their literals.
abbrev pub host : Host
host = record { stat = λ f. none; look_path = λ p. none; range = λ l. l }

pub host-IsLawful : IsLawful host
host-IsLawful = record { range-All = λ P l h. h }

abbrev pub openssl_config : Config
openssl_config = record {
  listen_addr = ascii ":8443";
  server_cert_file = ascii "server.crt";
  server_key_file = ascii "server.key";
  client_ca_files = ascii "ca.crt" ∷ [];
  store_dir = ascii "store";
  cert_validity = pos 5;
  ca_backend = ascii "openssl";
  ca_cert_file = ascii "ca.crt";
  ca_key_file = [];
  openssl_ca =
      some
        (record { openssl_path = []; config_file = ascii "openssl.cnf"; extensions_section = [] });
  ejbca_ca = none;
  csr_attrs = none;
}

pub accepted : (validate host openssl_config).0 ≡ ok tt
unfolding validate default_backend is_backend is_positive check_required default_openssl
    check_common openssl_section_files openssl_files backend_files check_files ascii str_eq
accepted = refl
