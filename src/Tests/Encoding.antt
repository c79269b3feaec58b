-- ===== src/Tests/Encoding.antt =====
-- Request and response bodies.
use est.Common.{◌≡◌, ◌≤◌, refl, [], ◌∷◌, none, Bytes, length, ok}
use est.Base64.{
  encode_to_string, encode_digit, decode_string, decode_quanta, decode_quantum, decode_padded,
  decode_digit, skip_newlines,
}
use est.Utf8.{decode_rune, encode_rune}
use est.Estapi.Encoding.{
  content_type_csr_attrs, decode_csr_body, read_all_limited, strip_whitespace, strip_runes,
  is_whitespace, write_base64_response,
}
use est.Estapi.Encoding.Wrapping.{IsWrapped, write_base64_response-IsWrapped}
use est.Estapi.Encoding.Decode.{decode_csr_body-eq-ok}
use est.Tests.Data.{platform, enroll_request, csr_der, csr_body, request_of}

abbrev csr_text : Bytes
csr_text = b'M' ∷ b'A' ∷ b'M' ∷ b'B' ∷ b'A' ∷ b'g' ∷ b'M' ∷ b'=' ∷ []

encode_csr : encode_to_string csr_der ≡ csr_text
unfolding encode_to_string encode_digit
encode_csr = refl

-- The request body is read, stripped, decoded and parsed.
pub decode_csr :
    decode_csr_body platform.parse_certificate_request enroll_request.body ≡ ok (request_of csr_der)
unfolding decode_csr_body read_all_limited strip_whitespace strip_runes is_whitespace decode_rune
    encode_rune decode_string decode_quanta decode_quantum decode_padded decode_digit skip_newlines
decode_csr = refl

decode_csr_body-eq-ok_example :
    (length csr_body ≤ 65536)
    × (enroll_request.body.failure ≡ none)
    × (der : Bytes) × (decode_string (strip_whitespace csr_body) ≡ ok der)
    × (platform.parse_certificate_request der ≡ ok (request_of csr_der))
decode_csr_body-eq-ok_example =
    decode_csr_body-eq-ok platform.parse_certificate_request enroll_request.body decode_csr

write_base64_response-IsWrapped_example :
    IsWrapped (encode_to_string csr_der) (write_base64_response content_type_csr_attrs csr_der).body
write_base64_response-IsWrapped_example =
    write_base64_response-IsWrapped content_type_csr_attrs csr_der
