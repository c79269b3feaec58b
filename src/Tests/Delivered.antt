-- ===== src/Tests/Delivered.antt =====
-- A backend that issues one certificate, over an empty store on disk.
use est.Common.{
  subst, ap, sym, ◌∙◌, inl, ℕ, ◌+◌, some, All, IsByte, Result, arith, Bytes, ◌≡◌, refl, [], ◌∷◌,
  ascii, str_eq, ok, err,
}
use est.Fs.{remove_file}
use est.X509.{Certificate, CertificateRequest}
use est.Base64.{
  decode_string, decode_quanta, decode_quantum, decode_padded, decode_digit, skip_newlines,
}
use est.Utf8.{decode_rune, encode_rune}
use est.Pkcs7.{encode_certs_only}
use est.Estapi.Encoding.{
  decode_csr_body, read_all_limited, strip_whitespace, strip_runes, is_whitespace,
  write_base64_response, write_pkcs7_response,
}
use est.Estapi.Server.{
  World, handle_simple_enroll, issue_and_respond, persist, persist_certificate, respond_with,
}
use est.Estapi.Identity.{peer_certificate}
use est.Estapi.Server.{serve, route}
use est.Tests.Data.{parse_certificate, marshal_indent, directory}
use est.Common.{oid_eq, all}
use est.Hex.{hex, hex_loop, hex_digit, pad_zeros}
use est.Pkcs7.{has_raw, add_certificates, add_signed_data, add_content_info}
use est.Store.Atomic.{
  create_temp, write_temp, chmod_temp, rename_temp, fill_and_rename, remove_after,
  write_file_atomic,
}
use est.Store.FileStore.{
  put_csr, put_certificate, serial_hex, join, csr_path, cert_path, cert_meta_path,
}
use est.Tests.Der.{element, oid_element, oid_content, int64_element, append_result}
use est.Tests.Data.{platform, store, world, enroll_request}
use est.Estapi.Server.{Route}
use est.Pkcs7.Decode.{IsEmbeddable}
use est.Estapi.Server.Delivered.{IsDelivered, serve-IsDelivered}
use est.Tests.Der.{der_cryptobyte}
use est.Tests.Der.Lawful.{der_cryptobyte-IsLawful}
use est.Tests.Data.{cert}
use est.Tests.Pkcs7.{cert-IsEmbeddable}
use est.Ca.{CaBackend}

abbrev one_certificate : CaBackend
one_certificate = record {
  State = ℕ;
  ca_certificates = λ n. (ok [], n);
  issue_certificate = λ csr n. (ok (cert 7), n + 1);
}

abbrev one_world : World one_certificate store
one_world = record { ca = 0; store = world.store; log = [] }

abbrev pub cert_message : Bytes
cert_message =
    48 ∷ 42 ∷ 6 ∷ 9 ∷ 42 ∷ 134 ∷ 72 ∷ 134 ∷ 247 ∷ 13 ∷ 1 ∷ 7 ∷ 2 ∷ 160 ∷ 29 ∷ 48 ∷ 27 ∷ 2 ∷ 1 ∷ 1
    ∷ 49 ∷ 0 ∷ 48 ∷ 11 ∷ 6 ∷ 9 ∷ 42 ∷ 134 ∷ 72 ∷ 134 ∷ 247 ∷ 13 ∷ 1 ∷ 7 ∷ 1 ∷ 160 ∷ 5 ∷ 48 ∷ 3 ∷ 2
    ∷ 1 ∷ 7 ∷ 49 ∷ 0 ∷ []

pub encode_cert : encode_certs_only der_cryptobyte (some (cert 7) ∷ []) ≡ ok cert_message
unfolding encode_certs_only has_raw all add_certificates add_signed_data add_content_info
    append_result element oid_element oid_content oid_eq int64_element
encode_cert = refl

abbrev value_of : Result Certificate → Certificate
value_of (ok c) = c
value_of (err e) = cert 0

issued-IsEmbeddable :
    (csr : CertificateRequest) (n : ℕ) (c : Certificate)
    → (one_certificate.issue_certificate csr n).0 ≡ ok c
    → IsEmbeddable der_cryptobyte-IsLawful parse_certificate c
issued-IsEmbeddable csr n c h =
    subst (IsEmbeddable der_cryptobyte-IsLawful parse_certificate) (ap value_of h)
      (cert-IsEmbeddable 7)

cert_message-IsByte : All IsByte cert_message
cert_message-IsByte = ground arith

abbrev bytes_of : Result Bytes → Bytes
bytes_of (ok d) = d
bytes_of (err e) = []

encoded-IsByte :
    (csr : CertificateRequest) (n : ℕ) (c : Certificate) (der : Bytes)
    → (one_certificate.issue_certificate csr n).0 ≡ ok c
    → encode_certs_only der_cryptobyte (some c ∷ []) ≡ ok der
    → All IsByte der
encoded-IsByte csr n c der h e =
    let same : cert 7 ≡ c = ap value_of h in
    let known = subst (λ x. encode_certs_only der_cryptobyte (some x ∷ []) ≡ ok der) (sym same) e in
    subst (All IsByte) (ap bytes_of (sym encode_cert ∙ known)) cert_message-IsByte

answered : (serve platform one_certificate store [] enroll_request one_world).0.status ≡ 200
unfolding handle_simple_enroll peer_certificate decode_csr_body read_all_limited strip_whitespace
    strip_runes is_whitespace decode_rune encode_rune decode_string decode_quanta decode_quantum
    decode_padded decode_digit skip_newlines issue_and_respond persist persist_certificate
    respond_with ascii str_eq encode_certs_only has_raw all add_certificates add_signed_data
    add_content_info append_result element oid_element oid_content oid_eq int64_element put_csr
    put_certificate write_file_atomic create_temp write_temp chmod_temp rename_temp fill_and_rename
    remove_after remove_file csr_path cert_path cert_meta_path join serial_hex pad_zeros hex
    hex_loop hex_digit write_pkcs7_response write_base64_response serve route
answered = refl

routed : route enroll_request.method enroll_request.path ≡ Route.simple_enroll
unfolding route ascii str_eq
routed = refl

serve-IsDelivered_example :
    IsDelivered platform der_cryptobyte-IsLawful one_certificate parse_certificate marshal_indent
      directory issued-IsEmbeddable encoded-IsByte
      (serve platform one_certificate store [] enroll_request one_world)
serve-IsDelivered_example =
    serve-IsDelivered platform der_cryptobyte-IsLawful one_certificate parse_certificate
      marshal_indent directory issued-IsEmbeddable encoded-IsByte [] enroll_request one_world
      (inl routed) answered
