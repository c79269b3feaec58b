-- ===== src/Tests/Ca/Served.antt =====
-- An enrollment at a server with a local CA.
use est.Common.{◌≡◌, refl, [], ok, int_eq, ◌+ℤ◌, negate, sub_nat}
use est.Fs.{remove_file}
use est.Ca.Serial.{big_endian, clear_top_bit, random_serial, random_serial_source}
use est.Ca.Local.{key_usage_for, subject_key_id, certificate_template, sign, issue_certificate}
use est.Ca.Local.Laws.{local_backend}
use est.Estapi.Identity.{peer_certificate}
use est.Common.{inl, ascii, str_eq, all, oid_eq}
use est.Base64.{
  decode_string, decode_quanta, decode_quantum, decode_padded, decode_digit, skip_newlines,
}
use est.Utf8.{decode_rune, encode_rune}
use est.Hex.{hex, hex_loop, hex_digit, pad_zeros}
use est.Pkcs7.{encode_certs_only, has_raw, add_certificates, add_signed_data, add_content_info}
use est.Store.Atomic.{
  create_temp, write_temp, chmod_temp, rename_temp, fill_and_rename, remove_after,
  write_file_atomic,
}
use est.Store.FileStore.{
  put_csr, put_certificate, serial_hex, join, csr_path, cert_path, cert_meta_path,
}
use est.Estapi.Encoding.{
  decode_csr_body, read_all_limited, strip_whitespace, strip_runes, is_whitespace,
  write_base64_response, write_pkcs7_response,
}
use est.Estapi.Server.{
  Platform, Route, World, handle_simple_enroll, serve, route, issue_and_respond, persist,
  persist_certificate, respond_with,
}
use est.Ca.Local.Served.{IsAnsweredWithControlled, serve-IsAnsweredWithControlled}
use est.Tests.Der.{element, oid_element, oid_content, int64_element, append_result}
use est.Tests.Data.{platform, store, store-IsLawful, world, enroll_request}
use est.Tests.Ca.{crypto, crypto-IsLawful, local_ca, csr, state}

abbrev plain_platform : Platform
plain_platform = record platform { parse_certificate_request = λ der. ok csr }

abbrev local_world : World (local_backend crypto random_serial_source local_ca) store
local_world = record { ca = state; store = world.store; log = [] }

served :
    (serve plain_platform
      (local_backend crypto random_serial_source local_ca)
      store
      []
      enroll_request
      local_world).0.status
    ≡ 200
unfolding serve route handle_simple_enroll peer_certificate decode_csr_body read_all_limited
    strip_whitespace strip_runes is_whitespace decode_rune encode_rune decode_string decode_quanta
    decode_quantum decode_padded decode_digit skip_newlines issue_and_respond persist
    persist_certificate respond_with ascii str_eq encode_certs_only has_raw all add_certificates
    add_signed_data add_content_info append_result element oid_element oid_content oid_eq
    int64_element put_csr put_certificate write_file_atomic create_temp write_temp chmod_temp
    rename_temp fill_and_rename remove_after remove_file csr_path cert_path cert_meta_path join
    serial_hex pad_zeros hex hex_loop hex_digit write_pkcs7_response write_base64_response
    issue_certificate sign random_serial clear_top_bit big_endian subject_key_id
    certificate_template key_usage_for int_eq ◌+ℤ◌ negate sub_nat
served = refl

enrolls : route enroll_request.method enroll_request.path ≡ Route.simple_enroll
unfolding route ascii str_eq
enrolls = refl

serve-IsAnsweredWithControlled_example :
    let out =
      serve plain_platform
        (local_backend crypto random_serial_source local_ca)
        store
        []
        enroll_request
        local_world in
    IsAnsweredWithControlled plain_platform crypto-IsLawful random_serial_source local_ca
      store-IsLawful enroll_request local_world.ca out.0
serve-IsAnsweredWithControlled_example =
    serve-IsAnsweredWithControlled plain_platform crypto-IsLawful random_serial_source local_ca
      store-IsLawful [] enroll_request local_world (inl enrolls) served
