-- ===== src/Tests/Estd.antt =====
-- A server with the openssl backend that starts on a host where every file is there.
use est.Common.{
  ◌≡◌, ◌≢◌, ◌⊎◌, refl, ap, arith, inl, List, [], ◌∷◌, none, some, Bytes, ascii, str_eq, ok, err,
  new,
}
use est.Fs.{remove_file}
use est.X509.{Certificate}
use est.Config.{
  Config, default_backend, is_backend, is_positive, check_required, default_openssl, check_common,
  openssl_section_files, openssl_files, backend_files, check_files, validate,
}
use est.Config.Load.{load}
use est.Config.Attrs.{csr_attrs_options}
use est.Ca.Openssl.{new_openssl_ca, load_ca_certificate}
use est.Store.FileStore.{new_file_store}
use est.Estapi.Server.{serve}
use est.Estapi.Tls.{ClientAuth, version_tls12, read_client_ca, read_client_cas, build_tls_config}
use est.Estapi.Tls.Laws.{pool_of}
use est.CsrAttrs.{is_empty_options, validate_options, validate_key_algorithm}
use est.CsrAttrs.Encode.{encode_csr_attrs}
use est.Estd.{Platform, Backend, Server, load_valid, openssl_of, choose_backend, assemble, start}
use est.Estd.Serving.{handle-Verifies}
use est.Tests.Config.{host, host-IsLawful, openssl_config}
use est.Tests.Openssl.{tools}
use est.Tests.Ca.{crypto}
use est.Tests.Der.{der_cryptobyte}
use est.Tests.Tls.{tls_tools}
use est.Tests.Data
use est.Base64.{
  decode_string, decode_quanta, decode_quantum, decode_padded, decode_digit, skip_newlines,
}
use est.Utf8.{decode_rune, encode_rune}
use est.Pkcs7.{encode_certs_only}
use est.Estapi.Encoding.{
  decode_csr_body, read_all_limited, strip_whitespace, strip_runes, is_whitespace,
  write_base64_response, write_pkcs7_response,
}
use est.Estapi.Server.{
  Request, handle_simple_enroll, issue_and_respond, persist, persist_certificate, respond_with,
}
use est.Estapi.Identity.{peer_certificate}
use est.Estapi.Server.{route}
use est.Common.{oid_eq, all}
use est.Hex.{hex, hex_loop, hex_digit, pad_zeros}
use est.Pkcs7.{has_raw, add_certificates, add_signed_data, add_content_info}
use est.Store.Atomic.{
  create_temp, write_temp, chmod_temp, rename_temp, fill_and_rename, remove_after,
  write_file_atomic,
}
use est.Store.FileStore.{
  put_csr, put_certificate, serial_hex, join, csr_path, cert_path, cert_meta_path,
}
use est.Tests.Der.{element, oid_element, oid_content, int64_element, append_result}
use est.Ca.Openssl.{
  openssl_issue_certificate, with_csr_file, with_cert_file, run_and_read, run_openssl_ca, read_cert,
  check_issued,
}
use est.Estd.Handler.{Libraries, ServerWorld, handle}
use est.Tests.Openssl.{calls}
use est.Tests.Ejbca

abbrev estd : Platform
estd = record {
  host = host;
  tls = tls_tools;
  crypto = crypto;
  openssl = tools;
  cryptobyte = der_cryptobyte;
  marshal = λ extensions. err (new []);
  unmarshal = λ file. ok openssl_config;
  mkdir_all = λ dir. none;
}

abbrev path : Bytes
path = ascii "estd.json"

abbrev server : Server estd
server = record {
  listen_addr = ascii ":8443";
  backend = Backend.openssl (record {
    openssl_path = ascii "openssl";
    config_file = ascii "openssl.cnf";
    ca_cert = Data.cert 5;
    extensions_section = ascii "est_extensions";
  });
  file_store = record { dir = ascii "store" };
  tls_config = record {
    certificate = tt;
    client_auth = ClientAuth.verify_client_cert_if_given;
    client_cas = Data.cert 5 ∷ [];
    min_version = version_tls12;
  };
  csr_attrs_der = [];
}

started : start estd path ≡ some (ok server)
unfolding start load_valid load validate default_backend is_backend is_positive check_required
    default_openssl check_common openssl_section_files openssl_files backend_files check_files ascii
    str_eq choose_backend openssl_of new_openssl_ca load_ca_certificate assemble new_file_store
    build_tls_config read_client_cas read_client_ca csr_attrs_options encode_csr_attrs
    validate_options is_empty_options validate_key_algorithm
started = refl

-- The client's certificate is itself a root.
abbrev Verifies : List Certificate → List Certificate → Type 0
Verifies roots [] = ⊥
Verifies [] (c ∷ cs) = ⊥
Verifies (r ∷ roots) (c ∷ cs) = (c ≡ r) ⊎ Verifies roots (c ∷ cs)

abbrev libraries : Libraries
libraries = record {
  endpoints = Data.platform;
  rest = Ejbca.tools;
  parse_certificate = Data.parse_certificate;
  marshal_indent = Data.marshal_indent;
}

abbrev before : ServerWorld estd libraries server
before = record {
  ca = record { files = Data.no_files; calls = λ n. calls; used = 0 };
  store = Data.world.store;
  log = [];
}

-- The three writes of an enrollment meet the faults with these numbers.
handle_used : (handle estd libraries server Data.enroll_request before).1.store.used ≡ 3
unfolding handle_simple_enroll peer_certificate decode_csr_body read_all_limited strip_whitespace
    strip_runes is_whitespace decode_rune encode_rune decode_string decode_quanta decode_quantum
    decode_padded decode_digit skip_newlines issue_and_respond persist persist_certificate
    respond_with ascii str_eq encode_certs_only has_raw all add_certificates add_signed_data
    add_content_info append_result element oid_element oid_content oid_eq int64_element put_csr
    put_certificate write_file_atomic create_temp write_temp chmod_temp rename_temp fill_and_rename
    remove_after remove_file csr_path cert_path cert_meta_path join serial_hex pad_zeros hex
    hex_loop hex_digit write_pkcs7_response write_base64_response serve route handle
    openssl_issue_certificate with_csr_file with_cert_file run_and_read run_openssl_ca read_cert
    check_issued
handle_used = refl

changed : (handle estd libraries server Data.enroll_request before).1.store ≢ before.store
changed same = absurd (ground (arith, handle_used, ap (λ s. s.used) same))

handle-Verifies_example :
    (c : Config) × (load_valid estd path ≡ ok c)
    × Verifies (pool_of tls_tools c.client_ca_files) (Data.cert 5 ∷ [])
handle-Verifies_example =
    handle-Verifies estd host-IsLawful (λ cfg certs. Verifies cfg.client_cas certs) Verifies
      (λ cfg c cs strict accepted. accepted) libraries path started Data.enroll_request before
      (Data.cert 5 ∷ []) refl (inl refl) changed

abbrev csr_attrs_request : Request
csr_attrs_request = record Data.enroll_request {
  method = ascii "GET";
  path = ascii "/.well-known/est/csrattrs";
}
