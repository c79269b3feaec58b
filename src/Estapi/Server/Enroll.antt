-- ===== src/Estapi/Server/Enroll.antt =====
-- What a successful enrollment means, and what a request without a client certificate cannot do.
use est.Common.{
  ◌≡◌, ◌⊎◌, refl, sym, ap, ◌∙◌, subst, arith, true, [], ◌∷◌, some, Bytes, ok, Result-cases,
  Bool-cases, inl, inr,
}
use est.X509.{Certificate, CertificateRequest}
use est.Pkcs7.{encode_certs_only}
use est.Ca.{CaBackend}
use est.Store.{Store, Metadata, IsLawful}
use est.Estapi.Encoding.{Response, decode_csr_body, write_pkcs7_response}
use est.Estapi.Identity.{peer_certificate, identities_match}
use est.Estapi.Server.{
  Platform, Request, World, http_error, internal_error, respond_with, persist_certificate, persist,
}
use est.Estapi.Server.{
  Route, route, issue_and_respond, handle_simple_enroll, handle_simple_reenroll, serve,
}

module _ (P : Platform) (B : CaBackend) {S : Store} (L : IsLawful S) where
  -- The CSR was signed, it and the certificate are stored under the certificate's serial number, and
  -- the certificate is in the response.
  pub record IsEnrolled (csr : CertificateRequest) (cert : Certificate) (w : World B S)
      (out : Response × World B S) : Type 0 where
    pub issued : (B.issue_certificate csr w.ca).0 ≡ ok cert
    pub csr_stored : L.csr out.1.store cert.serial_number ≡ some csr.raw
    pub certificate_stored : L.certificate out.1.store cert.serial_number ≡ some cert.raw
    pub der : Bytes
    pub encoded : encode_certs_only P.cryptobyte (some cert ∷ []) ≡ ok der
    pub response : out.0 ≡ write_pkcs7_response der

  respond_with-ok :
      (cert : Certificate) (w : World B S)
      → (respond_with P B S cert w).0.status ≡ 200
      → (der : Bytes) × (encode_certs_only P.cryptobyte (some cert ∷ []) ≡ ok der)
        × (respond_with P B S cert w ≡ (write_pkcs7_response der, w))
  unfolding respond_with internal_error
  respond_with-ok cert w h = elim (Result-cases (encode_certs_only P.cryptobyte (some cert ∷ []))) [
    | inl (der, e) ↦ (der, e, ground (arith, e))
    | inr (x, e) ↦ absurd (ground (arith, h, e))
  ]

  -- What the store holds, and what is answered, once both writes have succeeded.
  persist-IsEnrolled :
      (csr : CertificateRequest) (cert : Certificate) (meta : Metadata) (w : World B S)
      (out : Response × World B S)
      → out ≡ persist P B S csr cert meta w
      → out.0.status ≡ 200
      → (L.csr out.1.store cert.serial_number ≡ some csr.raw)
        × (L.certificate out.1.store cert.serial_number ≡ some cert.raw)
        × (der : Bytes) × (encode_certs_only P.cryptobyte (some cert ∷ []) ≡ ok der)
        × (out.0 ≡ write_pkcs7_response der)
  unfolding persist persist_certificate internal_error
  persist-IsEnrolled csr cert meta w out e h =
      let n = cert.serial_number in
      let (r1, s1) = S.put_csr n csr.raw meta w.store in
      let (r2, s2) = S.put_certificate n cert.raw meta s1 in
      elim (Result-cases r1) [
        | inl (_, e1) ↦ elim (Result-cases r2) [
          | inl (_, e2) ↦
              let w2 : World B S = record w { store = s2 } in
              let whole : out ≡ respond_with P B S cert w2 = ground (arith, e, e1, e2) in
              let (der, enc, shown) = respond_with-ok cert w2 (ground (arith, h, whole)) in
              (
                ground (
                  arith,
                  whole,
                  shown,
                  L.csr-put_csr n csr.raw meta w.store e1,
                  L.csr-put_certificate n cert.raw meta s1 n,
                ),
                ground (arith, whole, shown, L.certificate-put_certificate n cert.raw meta s1 e2),
                der,
                enc,
                ground (arith, whole, shown),
              )
          | inr (x, e2) ↦ absurd (ground (arith, h, e, e1, e2))
        ]
        | inr (x, e1) ↦ absurd (ground (arith, h, e, e1))
      ]

  issue_and_respond-IsEnrolled :
      (r : Request) (csr : CertificateRequest) (peer : Certificate) (w : World B S)
      (out : Response × World B S)
      → out ≡ issue_and_respond P B S r csr peer w
      → out.0.status ≡ 200
      → (cert : Certificate) × IsEnrolled csr cert w out
  unfolding issue_and_respond internal_error http_error
  issue_and_respond-IsEnrolled r csr peer w out e h =
      let (issued, ca) = B.issue_certificate csr w.ca in
      let meta : Metadata = record {
        requester = peer.subject.common_name;
        remote_addr = r.remote_addr;
        received_at = r.received_at;
      } in
      elim (Result-cases issued) [
        | inl (cert, ei) ↦
            let w1 : World B S = record w { ca = ca } in
            let whole : out ≡ persist P B S csr cert meta w1 = ground (arith, e, ei) in
            let (c, k, der, enc, shown) = persist-IsEnrolled csr cert meta w1 out whole h in
            (
              cert,
              record {
                issued = ei;
                csr_stored = c;
                certificate_stored = k;
                der = der;
                encoded = enc;
                response = shown;
              },
            )
        | inr (x, ei) ↦ absurd (ground (arith, h, e, ei))
      ]

  -- Over a lawful store, a 200 from `simpleenroll`: a client certificate was shown, the body held a CSR,
  -- the backend issued a certificate for it, the bytes of both are stored under its serial number, and
  -- the answer is the message of the certificate.
  pub handle_simple_enroll_200 :
      (r : Request) (w : World B S)
      → (handle_simple_enroll P B S r w).0.status ≡ 200
      → (peer : Certificate) × (csr : CertificateRequest) × (cert : Certificate) × (peer_certificate
            r.tls
          ≡ ok peer)
        × (decode_csr_body P.parse_certificate_request r.body ≡ ok csr)
        × IsEnrolled csr cert w (handle_simple_enroll P B S r w)
  unfolding handle_simple_enroll http_error
  handle_simple_enroll_200 r w h = elim (Result-cases (peer_certificate r.tls)) [
    | inl (peer, ep) ↦ elim (Result-cases (decode_csr_body P.parse_certificate_request r.body)) [
      | inl (csr, ec) ↦
          let (cert, enrolled) =
            issue_and_respond-IsEnrolled r csr peer w (handle_simple_enroll P B S r w)
              (ground (arith, ep, ec)) h in
          (peer, csr, cert, ep, ec, enrolled)
      | inr (x, ec) ↦ absurd (ground (arith, h, ep, ec))
    ]
    | inr (x, ep) ↦ absurd (ground (arith, h, ep))
  ]

  -- A 200 from `simplereenroll`: a client certificate was shown, the body held a CSR, the two
  -- identities match, and the CSR was signed and stored, and is answered.
  pub handle_simple_reenroll_200 :
      (r : Request) (w : World B S)
      → (handle_simple_reenroll P B S r w).0.status ≡ 200
      → (peer : Certificate) × (csr : CertificateRequest) × (cert : Certificate) × (peer_certificate
            r.tls
          ≡ ok peer)
        × (decode_csr_body P.parse_certificate_request r.body ≡ ok csr)
        × (identities_match P.ip_string P.url_string peer csr ≡ true)
        × IsEnrolled csr cert w (handle_simple_reenroll P B S r w)
  unfolding handle_simple_reenroll http_error
  handle_simple_reenroll_200 r w h = elim (Result-cases (peer_certificate r.tls)) [
    | inl (peer, ep) ↦ elim (Result-cases (decode_csr_body P.parse_certificate_request r.body)) [
      | inl (csr, ec) ↦ elim (Bool-cases (identities_match P.ip_string P.url_string peer csr)) [
        | inl same ↦
            let (cert, enrolled) =
              issue_and_respond-IsEnrolled r csr peer w (handle_simple_reenroll P B S r w)
                (ground (arith, ep, ec, same)) h in
            (peer, csr, cert, ep, ec, same, enrolled)
        | inr differ ↦ absurd (ground (arith, h, ep, ec, differ))
      ]
      | inr (x, ec) ↦ absurd (ground (arith, h, ep, ec))
    ]
    | inr (x, ep) ↦ absurd (ground (arith, h, ep))
  ]

  -- An enrollment through the mux that is answered with 200.
  pub serve_200 :
      (csr_attrs_der : Bytes) (r : Request) (w : World B S)
      → (route r.method r.path ≡ Route.simple_enroll)
        ⊎ (route r.method r.path ≡ Route.simple_reenroll)
      → let out = serve P B S csr_attrs_der r w in
        out.0.status ≡ 200
        → (peer : Certificate) × (csr : CertificateRequest) × (cert : Certificate)
          × (peer_certificate r.tls ≡ ok peer)
          × (decode_csr_body P.parse_certificate_request r.body ≡ ok csr)
          × IsEnrolled csr cert w out
  unfolding serve
  serve_200 csr_attrs_der r w (inl e) good =
      let same : serve P B S csr_attrs_der r w ≡ handle_simple_enroll P B S r w =
        rw (e, serve) refl in
      let (peer, csr, cert, p, d, enrolled) =
        handle_simple_enroll_200 r w
          (ap (λ (o : Response × World B S). o.0.status) (sym same) ∙ good) in
      (peer, csr, cert, p, d, subst (IsEnrolled csr cert w) (sym same) enrolled)
  serve_200 csr_attrs_der r w (inr e) good =
      let same : serve P B S csr_attrs_der r w ≡ handle_simple_reenroll P B S r w =
        rw (e, serve) refl in
      let (peer, csr, cert, p, d, _, enrolled) =
        handle_simple_reenroll_200 r w
          (ap (λ (o : Response × World B S). o.0.status) (sym same) ∙ good) in
      (peer, csr, cert, p, d, subst (IsEnrolled csr cert w) (sym same) enrolled)
