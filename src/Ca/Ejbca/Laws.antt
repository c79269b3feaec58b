-- ===== src/Ca/Ejbca/Laws.antt =====
-- What the EJBCA backend hands back.
use est.Common.{
  ℕ, ◌+◌, ◌≤◌, ◌<◌, ◌≡◌, refl, sym, ap, ◌∙◌, arith, false, [], ◌∷◌, ◌++◌, none, Bytes, ascii,
  Result, ok, err, Option-cases, Result-cases, inl, inr, >>=-eq-ok, context-eq-ok,
}
use est.X509.{Certificate, CertificateRequest}
use est.Base64.{decode_string}
use est.Ca.Ejbca.{
  EjbcaCa, EnrollRequest, EnrollResponse, HttpRequest, HttpResponse, enroll_request_of, enroll_post,
  RestTools, encode_hex, Remote, draw, random_credentials, response_body, send, check_enrolled,
  enroll, ejbca_issue_certificate,
}

module _ (T : RestTools) where
  -- A request was answered with a status of success and a body.
  pub record IsAnswered (s : Remote) (request : HttpRequest) (body : Bytes) : Type 0 where
    pub sent : ℕ
    pub response : HttpResponse
    pub exchanged : s.exchange sent request ≡ ok response
    pub at_least : 200 ≤ response.status
    pub below : response.status < 300
    pub read : response.body ≡ ok body

  -- The JSON text of a form with the CSR, the names of the CA and of its two profiles, and credentials
  -- of the two next draws of random bytes was posted to the enrollment path, and answered with success
  -- and a body.
  pub record IsPosted (c : EjbcaCa) (s : Remote) (csr : CertificateRequest) (body : Bytes)
      : Type 0 where
    pub username : Bytes
    pub password : Bytes
    pub user_buf : Bytes
    pub user_drawn : s.read s.drawn ≡ ok user_buf
    pub user_hex : username ≡ ascii "estd-" ++ encode_hex user_buf
    pub pass_buf : Bytes
    pub pass_drawn : s.read (s.drawn + 1) ≡ ok pass_buf
    pub pass_hex : password ≡ encode_hex pass_buf
    pub form : EnrollRequest
    pub certificate_request : form.certificate_request ≡ T.pem_encode csr.raw
    pub certificate_profile : form.certificate_profile_name ≡ c.certificate_profile_name
    pub end_entity_profile : form.end_entity_profile_name ≡ c.end_entity_profile_name
    pub certificate_authority : form.certificate_authority_name ≡ c.ca_name
    pub form_username : form.username ≡ username
    pub form_password : form.password ≡ password
    pub response_format : form.response_format ≡ ascii "DER"
    pub posted : Bytes
    pub marshalled : T.marshal_enroll_request form ≡ ok posted
    pub request : HttpRequest
    pub method : request.method ≡ ascii "POST"
    pub url : request.url ≡ c.base_url ++ ascii "/certificate/pkcs10enroll"
    pub headers :
        request.headers
        ≡ (ascii "Content-Type", ascii "application/json")
          ∷ (ascii "Accept", ascii "application/json")
          ∷ []
    pub request_body : request.body ≡ posted
    pub answered : IsAnswered s request body

  -- The CSR's signature verifies, and the certificate is the one in the JSON of the answer to its
  -- enrollment, and no CA certificate.
  pub record IsEnrolled (c : EjbcaCa) (s : Remote) (csr : CertificateRequest) (cert : Certificate)
      : Type 0 where
    pub verified : T.check_signature csr ≡ none
    pub body : Bytes
    pub posted : IsPosted c s csr body
    pub response : EnrollResponse
    pub unmarshalled : T.unmarshal_enroll_response body ≡ ok response
    pub der : Bytes
    pub decoded : decode_string response.certificate ≡ ok der
    pub parsed : T.parse_certificate der ≡ ok cert
    pub is_ca : cert.is_ca ≡ false

  check_enrolled_lem :
      (c : EjbcaCa) (s : Remote) (csr : CertificateRequest) (body : Bytes) {cert : Certificate}
      → T.check_signature csr ≡ none
      → IsPosted c s csr body
      → check_enrolled T body ≡ ok cert
      → IsEnrolled c s csr cert
  unfolding check_enrolled
  check_enrolled_lem c s csr body {cert} v a h =
      elim (Result-cases (T.unmarshal_enroll_response body)) [
        | inr (x, bad) ↦ absurd (ground (arith, h, bad))
        | inl (er, u) ↦ elim (Result-cases (decode_string er.certificate)) [
          | inr (x, bad) ↦ absurd (ground (arith, h, u, bad))
          | inl (der, d) ↦ elim (Result-cases (T.parse_certificate der)) [
            | inr (x, bad) ↦ absurd (ground (arith, h, u, d, bad))
            | inl (made, p) ↦ record {
              verified = v;
              body = body;
              posted = a;
              response = er;
              unmarshalled = u;
              der = der;
              decoded = d;
              parsed = ground (arith, h, u, d, p);
              is_ca = ground (arith, h, u, d, p);
            }
          ]
        ]
      ]

  response_body_lem :
      (text : Bytes) (answer : Result HttpResponse) {body : Bytes}
      → response_body T text answer ≡ ok body
      → (r : HttpResponse) × (answer ≡ ok r)
        × (200 ≤ r.status)
        × (r.status < 300)
        × (r.body ≡ ok body)
  unfolding response_body
  response_body_lem text (err e) h = cc
  response_body_lem text (ok r) h = elim (Result-cases r.body) [
    | inr (x, bad) ↦ absurd (ground (arith, h, bad))
    | inl (b, read) ↦
        (r, refl, ground (arith, h, read), ground (arith, h, read), ground (arith, h, read))
  ]

  send_lem :
      (build text : Bytes) (request : HttpRequest) (s : Remote) {r : HttpResponse}
      → (send T build text request s).0 ≡ ok r
      → s.exchange s.sent request ≡ ok r
  unfolding send
  send_lem build text request s {r} h = elim (Option-cases (T.check_url request.url)) [
    | inr (x, bad) ↦ absurd (ground (arith, h, bad))
    | inl good ↦ context-eq-ok text (s.exchange s.sent request) (ground (arith, h, good))
  ]

  random_credentials_keeps : (s : Remote) → (random_credentials s).1.exchange ≡ s.exchange
  unfolding random_credentials draw
  random_credentials_keeps s = ground arith

  -- Credentials are the hexadecimal digits of the bytes of two draws.
  random_credentials_lem :
      (s : Remote) {username password : Bytes}
      → (random_credentials s).0 ≡ ok (username, password)
      → (user_buf : Bytes) × (s.read s.drawn ≡ ok user_buf)
        × (username ≡ ascii "estd-" ++ encode_hex user_buf)
        × (pass_buf : Bytes) × (s.read (s.drawn + 1) ≡ ok pass_buf)
        × (password ≡ encode_hex pass_buf)
  unfolding random_credentials draw
  random_credentials_lem s h = elim (Result-cases (s.read s.drawn)) [
    | inr (x, bad) ↦ absurd (ground (arith, h, bad))
    | inl (user_buf, u) ↦ elim (Result-cases (s.read (s.drawn + 1))) [
      | inr (x, bad) ↦ absurd (ground (arith, h, u, bad))
      | inl (pass_buf, p) ↦
          (user_buf, u, ground (arith, h, u, p), pass_buf, p, ground (arith, h, u, p))
    ]
  ]

  enroll_lem :
      (c : EjbcaCa) (csr : CertificateRequest) (username password : Bytes) (s : Remote)
      {cert : Certificate}
      → (enroll T c csr username password s).0 ≡ ok cert
      → (posted : Bytes) × (T.marshal_enroll_request (enroll_request_of T c csr username password)
          ≡ ok posted)
        × (body : Bytes) × IsAnswered s (enroll_post T c posted) body
        × (check_enrolled T body ≡ ok cert)
  unfolding enroll
  enroll_lem c csr username password s h =
      elim (Result-cases (T.marshal_enroll_request (enroll_request_of T c csr username password))) [
        | inr (x, bad) ↦ absurd (ground (arith, h, bad))
        | inl (posted, m) ↦
            let request = enroll_post T c posted in
            let build = ascii "ejbca: build enroll request" in
            let (answer, _) = send T build (ascii "ejbca: enroll request") request s in
            let read = response_body T (ascii "ejbca: read enroll response") answer in
            let (text, accepted, checked) =
              >>=-eq-ok read (check_enrolled T) (ground (arith, h, m)) in
            let (response, answered, low, high, whole) = response_body_lem _ answer accepted in
            (
              posted,
              m,
              text,
              record {
                sent = s.sent;
                response = response;
                exchanged = send_lem build _ request s answered;
                at_least = low;
                below = high;
                read = whole;
              },
              checked,
            )
      ]

  -- What was answered after credentials were drawn was answered by the same remote.
  drawn-IsAnswered :
      (s : Remote) {request : HttpRequest} {body : Bytes}
      → IsAnswered (random_credentials s).1 request body
      → IsAnswered s request body
  drawn-IsAnswered s {request} a = record {
    sent = a.sent;
    response = a.response;
    exchanged = ap (λ f. f a.sent request) (sym (random_credentials_keeps s)) ∙ a.exchanged;
    at_least = a.at_least;
    below = a.below;
    read = a.read;
  }

  -- A certificate that the backend hands back is for a CSR whose signature verifies. The JSON text of a
  -- form with the CSR's PEM, the names of the CA and of its two profiles, and a user name and a password
  -- of hexadecimal digits of the next two draws of random bytes was posted to the enrollment path as
  -- JSON. The certificate is the one in the JSON of the successful answer to that, and is no CA certificate.
  pub ejbca_issue_certificate-IsEnrolled :
      (c : EjbcaCa) (csr : CertificateRequest) (s : Remote) {cert : Certificate}
      → (ejbca_issue_certificate T c csr s).0 ≡ ok cert
      → IsEnrolled c s csr cert
  unfolding ejbca_issue_certificate
  ejbca_issue_certificate-IsEnrolled c csr s h = elim (Option-cases (T.check_signature csr)) [
    | inr (x, bad) ↦ absurd (ground (arith, h, bad))
    | inl v ↦
        let (credentials, s1) = random_credentials s in
        elim (Result-cases credentials) [
          | inr (x, bad) ↦ absurd (ground (arith, h, v, bad))
          | inl ((username, password), drawn) ↦
              let (posted, m, body, a, checked) =
                enroll_lem c csr username password s1 (ground (arith, h, v, drawn)) in
              let (user_buf, u, user_hex, pass_buf, p, pass_hex) = random_credentials_lem s drawn in
              check_enrolled_lem c s csr body v
                (record {
                  username = username;
                  password = password;
                  user_buf = user_buf;
                  user_drawn = u;
                  user_hex = user_hex;
                  pass_buf = pass_buf;
                  pass_drawn = p;
                  pass_hex = pass_hex;
                  form = enroll_request_of T c csr username password;
                  certificate_request = refl;
                  certificate_profile = refl;
                  end_entity_profile = refl;
                  certificate_authority = refl;
                  form_username = refl;
                  form_password = refl;
                  response_format = refl;
                  posted = posted;
                  marshalled = m;
                  request = enroll_post T c posted;
                  method = refl;
                  url = refl;
                  headers = refl;
                  request_body = refl;
                  answered = drawn-IsAnswered s a;
                })
                checked
        ]
  ]
