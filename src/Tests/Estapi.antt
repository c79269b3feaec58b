-- ===== src/Tests/Estapi.antt =====
-- Requests to a server with the test backend and an empty store on disk.
use est.Common.{◌≡◌, refl, true, List, [], ◌∷◌, ascii, str_eq, ok}
use est.Fs.{remove_file}
use est.X509.{Certificate, CertificateRequest}
use est.Base64.{
  decode_string, decode_quanta, decode_quantum, decode_padded, decode_digit, skip_newlines,
}
use est.Utf8.{decode_rune, encode_rune}
use est.Pkcs7.{encode_certs_only}
use est.Estapi.Encoding.{
  Response, decode_csr_body, read_all_limited, strip_whitespace, strip_runes, is_whitespace,
  write_base64_response, write_pkcs7_response,
}
use est.Estapi.Server.{
  World, Request, handle_simple_enroll, handle_simple_reenroll, issue_and_respond, persist,
  persist_certificate, respond_with,
}
use est.Estapi.Identity.{peer_certificate, identities_match, san_set, san_items, append_lines}
use est.Strings.{sort_strings, insert_sorted, str_le}
use est.Estapi.Server.Enroll.{IsEnrolled, handle_simple_enroll_200, handle_simple_reenroll_200}
use est.Estapi.Server.Stored.{serve_all, serve_all-HasCsrs}
use est.Store.Kept.{HasCsrs}
use est.Store.FileStore.Lawful.{certificate_empty}
use est.Tests.Data.{anonymous_request, parse_certificate, marshal_indent, directory}
use est.Common.{oid_eq, all}
use est.Hex.{hex, hex_loop, hex_digit, pad_zeros}
use est.Pkcs7.{has_raw, add_certificates, add_signed_data, add_content_info}
use est.Store.Atomic.{
  create_temp, write_temp, chmod_temp, rename_temp, fill_and_rename, remove_after,
  write_file_atomic,
}
use est.Store.FileStore.{
  put_csr, put_certificate, serial_hex, join, csr_path, cert_path, cert_meta_path,
}
use est.Tests.Der.{element, oid_element, oid_content, int64_element, append_result}
use est.Tests.Data.{platform, backend, store, store-IsLawful, world, enroll_request}

abbrev out : Response × World backend store
out = handle_simple_enroll platform backend store enroll_request world

enroll_status : out.0.status ≡ 200
unfolding handle_simple_enroll peer_certificate decode_csr_body read_all_limited strip_whitespace
    strip_runes is_whitespace decode_rune encode_rune decode_string decode_quanta decode_quantum
    decode_padded decode_digit skip_newlines issue_and_respond persist persist_certificate
    respond_with ascii str_eq encode_certs_only has_raw all add_certificates add_signed_data
    add_content_info append_result element oid_element oid_content oid_eq int64_element put_csr
    put_certificate write_file_atomic create_temp write_temp chmod_temp rename_temp fill_and_rename
    remove_after remove_file csr_path cert_path cert_meta_path join serial_hex pad_zeros hex
    hex_loop hex_digit write_pkcs7_response write_base64_response
enroll_status = refl

reenroll_status :
    (handle_simple_reenroll platform backend store enroll_request world).0.status ≡ 200
unfolding handle_simple_reenroll peer_certificate decode_csr_body read_all_limited strip_whitespace
    strip_runes is_whitespace decode_rune encode_rune decode_string decode_quanta decode_quantum
    decode_padded decode_digit skip_newlines issue_and_respond persist persist_certificate
    respond_with ascii str_eq encode_certs_only has_raw all add_certificates add_signed_data
    add_content_info append_result element oid_element oid_content oid_eq int64_element put_csr
    put_certificate write_file_atomic create_temp write_temp chmod_temp rename_temp fill_and_rename
    remove_after remove_file csr_path cert_path cert_meta_path join serial_hex pad_zeros hex
    hex_loop hex_digit write_pkcs7_response write_base64_response identities_match san_set san_items
    append_lines sort_strings insert_sorted str_le
reenroll_status = refl

handle_simple_reenroll_200_example :
    (peer : Certificate) × (csr : CertificateRequest) × (issued : Certificate) × (peer_certificate
        enroll_request.tls
      ≡ ok peer)
    × (decode_csr_body platform.parse_certificate_request enroll_request.body ≡ ok csr)
    × (identities_match platform.ip_string platform.url_string peer csr ≡ true)
    × IsEnrolled platform backend store-IsLawful csr issued world
        (handle_simple_reenroll platform backend store enroll_request world)
handle_simple_reenroll_200_example =
    handle_simple_reenroll_200 platform backend store-IsLawful enroll_request world reenroll_status

handle_simple_enroll_200_example :
    (peer : Certificate) × (csr : CertificateRequest) × (issued : Certificate) × (peer_certificate
        enroll_request.tls
      ≡ ok peer)
    × (decode_csr_body platform.parse_certificate_request enroll_request.body ≡ ok csr)
    × IsEnrolled platform backend store-IsLawful csr issued world
        (handle_simple_enroll platform backend store enroll_request world)
handle_simple_enroll_200_example =
    handle_simple_enroll_200 platform backend store-IsLawful enroll_request world enroll_status

pub empty-HasCsrs : HasCsrs store-IsLawful world.store
empty-HasCsrs = record {
  apply = λ k h.
      absurd (h (certificate_empty parse_certificate marshal_indent directory world.store k refl));
}

abbrev requests : List Request
requests = enroll_request ∷ anonymous_request ∷ []

serve_all-HasCsrs_example :
    HasCsrs store-IsLawful ((serve_all platform backend store-IsLawful [] world requests).store)
serve_all-HasCsrs_example =
    serve_all-HasCsrs platform backend store-IsLawful [] requests world empty-HasCsrs
