-- ===== src/Estapi/Server/Client.antt =====
-- What an EST client reads out of a response: RFC 7030's way from the body to the certificates.
use est.Common.{◌≡◌, ap, ◌∙◌, List, map, Option, some, Bytes, All, IsByte, Result, ok, err}
use est.X509.{Certificate}
use est.Cryptobyte.{Cryptobyte, IsLawful}
use est.Base64.{decode_string}
use est.Base64.RoundTrip.{encode_to_string-IsDigit, decode_string-encode_to_string}
use est.Pkcs7.{encode_certs_only, decode_certs_only}
use est.Pkcs7.Decode.{IsEmbeddable, decode_certs_only-encode_certs_only}
use est.Estapi.Encoding.{
  content_type_pkcs7_mime, strip_whitespace, write_base64_response, write_pkcs7_response,
}
use est.Estapi.Encoding.Wrapping.{strip_whitespace_wrapped, write_base64_response-IsWrapped}

-- The bytes of a base64 body, whatever its line breaks.
unfoldable pub read_der : Bytes → Result Bytes
read_der body = decode_string (strip_whitespace body)

-- Any base64 response is read back as the bytes that it was made of.
pub read_der-write_base64_response :
    (content_type der : Bytes)
    → All IsByte der
    → read_der (write_base64_response content_type der).body ≡ ok der
unfolding read_der
read_der-write_base64_response content_type der h =
    ap decode_string (
      strip_whitespace_wrapped (write_base64_response-IsWrapped content_type der)
        (encode_to_string-IsDigit der h))
    ∙ decode_string-encode_to_string der h

module _ {C : Cryptobyte} (L : IsLawful C) (parse_certificate : Bytes → Result Certificate) where
  -- The certificates in a body.
  unfoldable pub read_certificates : Bytes → Option (Result (List Certificate))
  read_certificates body = elim (read_der body) [
    | ok der ↦ decode_certs_only C parse_certificate der
    | err e ↦ some (err e)
  ]

  -- A certs-only response is read as the certificates that were encoded.
  pub read_certificates-write_pkcs7_response :
      (certs : List Certificate) {der : Bytes}
      → All (IsEmbeddable L parse_certificate) certs
      → All IsByte der
      → encode_certs_only C (map some certs) ≡ ok der
      → read_certificates (write_pkcs7_response der).body ≡ some (ok certs)
  unfolding write_pkcs7_response read_certificates
  read_certificates-write_pkcs7_response certs {der} h bytes e =
      rw (read_der-write_base64_response content_type_pkcs7_mime der bytes, read_certificates)
        (decode_certs_only-encode_certs_only L parse_certificate certs h e)
