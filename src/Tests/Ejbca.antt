-- ===== src/Tests/Ejbca.antt =====
-- The EJBCA backend over a remote that answers with one certificate.
use est.Common.{
  ◌≢◌, arith, ◌<◌, length, ◌≡◌, refl, [], ◌∷◌, Option, none, some, Bytes, ascii, ok, err, new,
}
use est.Base64.{
  decode_string, decode_quanta, decode_quantum, decode_padded, decode_digit, skip_newlines,
}
use est.Hex.{hex_digit}
use est.Ca.Ejbca.{
  EjbcaCa, HttpResponse, RestTools, Remote, draw, encode_hex, random_credentials, response_body,
  send, check_enrolled, enroll, ejbca_issue_certificate, ejbca_ca_certificates,
}
use est.Ca.Ejbca.Chain.{IsLawful, ejbca_ca_certificates-ne-none}
use est.Ca.Ejbca.Laws.{IsEnrolled, ejbca_issue_certificate-IsEnrolled}
use est.Tests.Data.{cert_der, parse_certificate, csr_der, request_of, certificate}

-- Each byte of a text is a block.
abbrev pem_decode : Bytes → Option (Bytes × Bytes)
pem_decode [] = none
pem_decode (n ∷ s) = some (cert_der n, s)

abbrev pub tools : RestTools
tools = record {
  check_signature = λ csr. none;
  parse_certificate = parse_certificate;
  pem_encode = λ der. der;
  pem_decode = pem_decode;
  path_escape = λ s. s;
  marshal_enroll_request = λ r. ok r.certificate_request;
  unmarshal_enroll_response = λ body. ok (record { certificate = body });
  unmarshal_error_response = λ body. err (new []);
  check_url = λ url. none;
}

abbrev ejbca_ca : EjbcaCa
ejbca_ca = record {
  base_url = ascii "https://ca";
  ca_name = ascii "ca";
  ca_subject_dn = ascii "CN=ca";
  certificate_profile_name = ascii "p";
  end_entity_profile_name = ascii "e";
}

-- The base64 text of the certificate 30 03 01 02 03.
abbrev answer : HttpResponse
answer = record {
  status = 201;
  body = ok (b'M' ∷ b'A' ∷ b'M' ∷ b'B' ∷ b'A' ∷ b'g' ∷ b'M' ∷ b'=' ∷ []);
}

abbrev remote : Remote
remote = record {
  read = λ n. ok (1 ∷ 2 ∷ []);
  drawn = 0;
  exchange = λ n request. ok answer;
  sent = 0;
}

issue_csr :
    (ejbca_issue_certificate tools ejbca_ca (request_of csr_der) remote).0
    ≡ ok (certificate csr_der 3)
unfolding ejbca_issue_certificate random_credentials draw encode_hex hex_digit enroll send
    response_body check_enrolled decode_string decode_quanta decode_quantum decode_padded
    decode_digit skip_newlines
issue_csr = refl

ejbca_issue_certificate-IsEnrolled_example :
    IsEnrolled tools ejbca_ca remote (request_of csr_der) (certificate csr_der 3)
ejbca_issue_certificate-IsEnrolled_example =
    ejbca_issue_certificate-IsEnrolled tools ejbca_ca (request_of csr_der) remote issue_csr

pem_decode_shrinks :
    (s : Bytes) {block rest : Bytes} → pem_decode s ≡ some (block, rest) → length rest < length s
pem_decode_shrinks [] h = cc
pem_decode_shrinks (n ∷ s) h = ground (arith, h)

tools-IsLawful : IsLawful tools
tools-IsLawful = record { pem_decode_shrinks = pem_decode_shrinks }

ejbca_ca_certificates-ne-none_example : (ejbca_ca_certificates tools ejbca_ca remote).0 ≢ none
ejbca_ca_certificates-ne-none_example = ejbca_ca_certificates-ne-none tools-IsLawful ejbca_ca remote
