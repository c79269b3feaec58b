-- ===== src/Tests/Pkcs7.antt =====
-- Certs-only messages.
use est.Common.{◌≡◌, ◌≢◌, refl, ℕ, List, [], ◌∷◌, map, oid_eq, none, some, Bytes, ok, all}
use est.X509.{Certificate}
use est.Pkcs7.{
  has_raw, add_certificates, add_signed_data, add_content_info, encode_certs_only,
  decode_certs_only,
}
use est.Pkcs7.Decode.{IsEmbeddable, decode_certs_only-ne-none, decode_certs_only-encode_certs_only}
use est.Tests.Der.{der_cryptobyte, element, oid_element, oid_content, int64_element, append_result}
use est.Tests.Der.Lawful.{der_cryptobyte-IsLawful}
use est.Tests.Data.{cert, parse_certificate}

pub cert-IsEmbeddable : (n : ℕ) → IsEmbeddable der_cryptobyte-IsLawful parse_certificate (cert n)
unfolding der_cryptobyte-IsLawful element
cert-IsEmbeddable n = record { parsed = refl; content = 2 ∷ 1 ∷ n ∷ []; raw_element = refl }

abbrev pub two_certs : List Certificate
two_certs = cert 7 ∷ cert 8 ∷ []

abbrev pub two_certs_der : Bytes
two_certs_der =
    48 ∷ 47 ∷ 6 ∷ 9 ∷ 42 ∷ 134 ∷ 72 ∷ 134 ∷ 247 ∷ 13 ∷ 1 ∷ 7 ∷ 2 ∷ 160 ∷ 34 ∷ 48 ∷ 32 ∷ 2 ∷ 1 ∷ 1
    ∷ 49 ∷ 0 ∷ 48 ∷ 11 ∷ 6 ∷ 9 ∷ 42 ∷ 134 ∷ 72 ∷ 134 ∷ 247 ∷ 13 ∷ 1 ∷ 7 ∷ 1 ∷ 160 ∷ 10 ∷ 48 ∷ 3 ∷ 2
    ∷ 1 ∷ 7 ∷ 48 ∷ 3 ∷ 2 ∷ 1 ∷ 8 ∷ 49 ∷ 0 ∷ []

-- The bytes that the Go code writes for these two.
pub encode_two_certs : encode_certs_only der_cryptobyte (map some two_certs) ≡ ok two_certs_der
unfolding encode_certs_only has_raw all add_certificates add_signed_data add_content_info
    append_result element oid_element oid_content oid_eq int64_element
encode_two_certs = refl

decode_certs_only-encode_certs_only_example :
    decode_certs_only der_cryptobyte parse_certificate two_certs_der ≡ some (ok two_certs)
decode_certs_only-encode_certs_only_example =
    decode_certs_only-encode_certs_only der_cryptobyte-IsLawful parse_certificate two_certs
      (cert-IsEmbeddable 7, (cert-IsEmbeddable 8, tt)) encode_two_certs

decode_certs_only-ne-none_example :
    decode_certs_only der_cryptobyte parse_certificate two_certs_der ≢ none
decode_certs_only-ne-none_example =
    decode_certs_only-ne-none der_cryptobyte-IsLawful parse_certificate two_certs_der
