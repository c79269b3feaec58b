-- ===== src/Estapi/Server/Concurrent/Begin.antt =====
-- How the checks before `issueAndRespond` of internal/estapi/handlers.go end.
use est.Common.{
  ascii, error_text, ◌≡◌, ◌≢◌, ◌⊎◌, refl, arith, true, ok, Result-cases, Bool-cases, inl, inr,
}
use est.X509.{Certificate, CertificateRequest}
use est.Estapi.Encoding.{Response, decode_csr_body}
use est.Estapi.Identity.{peer_certificate, identities_match}
use est.Estapi.Server.{Platform, Request, http_error}
use est.Estapi.Server.Concurrent.{Phase, begin_enroll, begin_reenroll}

module _ (P : Platform) (r : Request) where
  -- The request was refused.
  abbrev pub IsRefused : Phase → Type 0
  IsRefused p = (out : Response) × (p ≡ Phase.answered r out) × (out.status ≢ 200)

  -- The client and the CSR are known, and the backend is to be asked.
  abbrev pub IsAsked : Phase → Certificate → CertificateRequest → Type 0
  IsAsked p peer csr =
      (p ≡ Phase.issuing r csr peer)
      × (peer_certificate r.tls ≡ ok peer)
      × (decode_csr_body P.parse_certificate_request r.body ≡ ok csr)

  pub begin_enroll_cases :
      ((peer : Certificate) × (csr : CertificateRequest) × IsAsked (begin_enroll P r) peer csr)
      ⊎ IsRefused (begin_enroll P r)
  unfolding begin_enroll http_error
  begin_enroll_cases = elim (Result-cases (peer_certificate r.tls)) [
    | inr (x, ep) ↦ inr (
      http_error (ascii "client certificate required") 401,
      rw (ep, begin_enroll) refl,
      λ bad. ground (arith, bad),
    )
    | inl (peer, ep) ↦ elim (Result-cases (decode_csr_body P.parse_certificate_request r.body)) [
      | inr (x, ec) ↦ inr (
        http_error (error_text x) 400,
        rw (ep, ec, begin_enroll) refl,
        λ bad. ground (arith, bad),
      )
      | inl (csr, ec) ↦ inl (peer, csr, (rw (ep, ec, begin_enroll) refl, ep, ec))
    ]
  ]

  pub begin_reenroll_cases :
      ((peer : Certificate) × (csr : CertificateRequest) × (identities_match P.ip_string
            P.url_string peer csr
          ≡ true)
        × IsAsked (begin_reenroll P r) peer csr)
      ⊎ IsRefused (begin_reenroll P r)
  unfolding begin_reenroll http_error
  begin_reenroll_cases = elim (Result-cases (peer_certificate r.tls)) [
    | inr (x, ep) ↦ inr (
      http_error (ascii "client certificate required") 401,
      rw (ep, begin_reenroll) refl,
      λ bad. ground (arith, bad),
    )
    | inl (peer, ep) ↦ elim (Result-cases (decode_csr_body P.parse_certificate_request r.body)) [
      | inr (x, ec) ↦ inr (
        http_error (error_text x) 400,
        rw (ep, ec, begin_reenroll) refl,
        λ bad. ground (arith, bad),
      )
      | inl (csr, ec) ↦ elim (Bool-cases (identities_match P.ip_string P.url_string peer csr)) [
        | inl same ↦ inl (peer, csr, same, (rw (ep, ec, same, begin_reenroll) refl, ep, ec))
        | inr differ ↦ inr (
          http_error (ascii "CSR identity does not match authenticated client certificate") 403,
          rw (ep, ec, differ, begin_reenroll) refl,
          λ bad. ground (arith, bad),
        )
      ]
    ]
  ]
