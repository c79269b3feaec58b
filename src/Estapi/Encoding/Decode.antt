-- ===== src/Estapi/Encoding/Decode.antt =====
-- The request body of an enrollment: its size limit, and what a well-formed one decodes to.
use est.Common.{◌≤◌, ◌<◌, ◌≡◌, arith, none, Bytes, All, IsByte, Bool-cases, inl, inr}
use est.Common.{
  length, take, length-take, leb, leb→le, le→leb, leb→gt, gt→leb, true, false, Option-cases,
  context-eq-ok, Result, ok, err, new, ascii, context, ◌>>=◌, >>=-eq-ok,
}
use est.X509.{CertificateRequest}
use est.Base64.{encode_to_string, decode_string}
use est.Base64.RoundTrip.{encode_to_string-IsDigit, decode_string-encode_to_string}
use est.Estapi.Encoding.{Body, read_all_limited, strip_whitespace, decode_csr_body}
use est.Estapi.Encoding.Wrapping.{IsWrapped, strip_whitespace_wrapped}

module _ (parse_certificate_request : Bytes → Result CertificateRequest) where
  -- A body in wrapped base64 that is not too long is parsed as the bytes that it encodes.
  pub decode_csr_body_wrapped :
      (der content : Bytes)
      → All IsByte der
      → IsWrapped (encode_to_string der) content
      → length content ≤ 65536
      → decode_csr_body parse_certificate_request (record { content = content; failure = none })
        ≡ context (ascii "parse CSR") (parse_certificate_request der)
  unfolding decode_csr_body read_all_limited
  decode_csr_body_wrapped der content h w short =
      let read : leb 65537 (length content) ≡ false = gt→leb _ _ (omega arith) in
      let fits : leb (length content) 65536 ≡ true = le→leb _ _ short in
      rw (
        read,
        fits,
        strip_whitespace_wrapped w (encode_to_string-IsDigit der h),
        decode_string-encode_to_string der h,
      )

  -- A body of more than 64 KiB is refused, whatever stands in it.
  pub decode_csr_body_too_long :
      (r : Body)
      → 65536 < length r.content
      → decode_csr_body parse_certificate_request r
        ≡ err (new (ascii "request body exceeds 65536 bytes"))
  unfolding decode_csr_body read_all_limited
  decode_csr_body_too_long r long =
      let read : leb 65537 (length r.content) ≡ true = ground arith in
      let over : leb (length (take 65537 r.content)) 65536 ≡ false =
        ground (arith, length-take 65537 r.content) in
      rw (read, over)

  -- A CSR that is accepted was read to its end, within the limit, and is what the base64 text
  -- without its whitespace encodes.
  pub decode_csr_body-eq-ok :
      (r : Body) {csr : CertificateRequest}
      → decode_csr_body parse_certificate_request r ≡ ok csr
      → (length r.content ≤ 65536)
        × (r.failure ≡ none)
        × (der : Bytes) × (decode_string (strip_whitespace r.content) ≡ ok der)
        × (parse_certificate_request der ≡ ok csr)
  unfolding decode_csr_body read_all_limited
  decode_csr_body-eq-ok r {csr} h = elim (Bool-cases (leb 65537 (length r.content))) [
    | inl long ↦ cc (h, decode_csr_body_too_long r (leb→le _ _ long))
    | inr short ↦
        let bound : length r.content ≤ 65536 = omega (arith, leb→gt _ _ short) in
        let fits : leb (length r.content) 65536 ≡ true = le→leb _ _ bound in
        elim (Option-cases r.failure) [
          | inl whole ↦
              let p = ascii "base64-decode request body" in
              let q = ascii "parse CSR" in
              let decoded = context p (decode_string (strip_whitespace r.content)) in
              let h' : (decoded >>= λ der. context q (parse_certificate_request der)) ≡ ok csr =
                rw (short, whole, fits) at h in
              let (der, d, e) = >>=-eq-ok decoded _ h' in
              (bound, whole, der, context-eq-ok p _ d, context-eq-ok q _ e)
          | inr (e, cut) ↦ cc (rw (short, cut) at h)
        ]
  ]
