-- ===== src/Tests/Concurrent.antt =====
-- Two enrollments at once, on a server with the test backend and an empty store on disk.
use est.Common.{
  ℤ, pos, int_eq, ap, sym, Result, ok, err, if◌then◌else◌, Option, some, none, ℕ, ◌≡◌, refl, List,
  [], ◌∷◌, ascii, str_eq,
}
use est.Fs.{remove_file}
use est.X509.{Certificate}
use est.Base64.{
  decode_string, decode_quanta, decode_quantum, decode_padded, decode_digit, skip_newlines,
}
use est.Utf8.{decode_rune, encode_rune}
use est.Pkcs7.{encode_certs_only}
use est.Estapi.Encoding.{
  Response, decode_csr_body, read_all_limited, strip_whitespace, strip_runes, is_whitespace,
  write_base64_response, write_pkcs7_response,
}
use est.Estapi.Server.{Request, respond_with}
use est.Estapi.Identity.{peer_certificate}
use est.Estapi.Server.{route}
use est.Store.Kept.{HasCsrs}
use est.Common.{oid_eq, all}
use est.Hex.{hex, hex_loop, hex_digit, pad_zeros}
use est.Pkcs7.{has_raw, add_certificates, add_signed_data, add_content_info}
use est.Store.Atomic.{
  create_temp, write_temp, chmod_temp, rename_temp, fill_and_rename, remove_after,
  write_file_atomic,
}
use est.Store.FileStore.{
  put_csr, put_certificate, serial_hex, join, csr_path, cert_path, cert_meta_path,
}
use est.Tests.Der.{element, oid_element, oid_content, int64_element, append_result}
use est.Tests.Data.{platform, backend, store, store-IsLawful, world, enroll_request}
use est.Estapi.Server.Concurrent.{
  Phase, Event, System, begin_enroll, dispatch, issue_call, put_csr_call, put_certificate_call,
  advance, receive, take_event, interleave,
}
use est.Estapi.Server.Concurrent.Sound.{IsEnrolledIn, IsEnrollment}
use est.Estapi.Server.Concurrent.Consistent.{IssuesApart, interleave_200}
use est.Tests.Estapi.{empty-HasCsrs}

abbrev idle : System platform backend store []
idle = record { world = world; phase = λ i. Phase.waiting }

abbrev events : List Event
events =
    Event.arrive 0 enroll_request
    ∷ Event.go_on 0
    ∷ Event.arrive 1 enroll_request
    ∷ Event.go_on 1
    ∷ Event.go_on 1
    ∷ Event.go_on 0
    ∷ Event.go_on 1
    ∷ Event.go_on 0
    ∷ Event.go_on 0
    ∷ Event.go_on 1
    ∷ Event.go_on 0
    ∷ []

abbrev after : System platform backend store []
after = interleave platform backend store [] idle events

abbrev status_of : Phase → Option ℕ
status_of (Phase.answered r out) = some out.status
status_of _ = none

first_status : status_of (after.phase 0) ≡ some 200
unfolding take_event advance receive dispatch begin_enroll issue_call put_csr_call
    put_certificate_call peer_certificate decode_csr_body read_all_limited strip_whitespace
    strip_runes is_whitespace decode_rune encode_rune decode_string decode_quanta decode_quantum
    decode_padded decode_digit skip_newlines respond_with route ascii str_eq encode_certs_only
    has_raw all add_certificates add_signed_data add_content_info append_result element oid_element
    oid_content oid_eq int64_element put_csr put_certificate write_file_atomic create_temp
    write_temp chmod_temp rename_temp fill_and_rename remove_after remove_file csr_path cert_path
    cert_meta_path join serial_hex pad_zeros hex hex_loop hex_digit write_pkcs7_response
    write_base64_response
first_status = refl

-- Goroutine 1 is the first to call the backend, so certificate 7 is its, and 8 is that of goroutine 0.
abbrev owner : ℤ → ℕ
owner n = if int_eq n (pos 7) then 1 else 0

abbrev owner_of : Result Certificate → ℕ
owner_of (ok c) = owner c.serial_number
owner_of (err e) = 0

apart : IssuesApart platform backend store-IsLawful [] owner idle events
unfolding take_event advance receive dispatch begin_enroll issue_call put_csr_call
    put_certificate_call peer_certificate decode_csr_body read_all_limited strip_whitespace
    strip_runes is_whitespace decode_rune encode_rune decode_string decode_quanta decode_quantum
    decode_padded decode_digit skip_newlines respond_with route ascii str_eq encode_certs_only
    has_raw all add_certificates add_signed_data add_content_info append_result element oid_element
    oid_content oid_eq int64_element put_csr put_certificate write_file_atomic create_temp
    write_temp chmod_temp rename_temp fill_and_rename remove_after remove_file csr_path cert_path
    cert_meta_path join serial_hex pad_zeros hex hex_loop hex_digit write_pkcs7_response
    write_base64_response
apart = (
  tt,
  (
    tt,
    (λ c e. sym (ap owner_of e), (λ c e. sym (ap owner_of e), (tt, (tt, (tt, (tt, (tt, tt))))))),
  ),
)

interleave_200_example :
    HasCsrs store-IsLawful after.world.store
    × ((i : ℕ) (r : Request) (answer : Response)
        → after.phase i ≡ Phase.answered r answer
        → IsEnrollment platform backend store-IsLawful owner r
        → answer.status ≡ 200
        → IsEnrolledIn platform backend store-IsLawful owner after.world.store i r answer)
interleave_200_example =
    interleave_200 platform backend store-IsLawful [] owner idle events (λ i. refl) empty-HasCsrs
      apart
