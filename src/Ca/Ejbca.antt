-- ===== src/Ca/Ejbca.antt =====
-- The backend of internal/ca/ejbca/ejbca.go, over what EJBCA's REST interface answers. The TLS
-- client that `NewCA` builds is part of `Remote`.
pub mod Laws
pub mod Chain
pub mod Backend
pub mod Client
use est.Common.{
  ℕ, ℤ, zero, suc, ◌+◌, ◌*◌, ◌/◌, ◌%◌, Bool, true, false, not, ◌||◌, ◌==◌, ltb, leb, List, [], ◌∷◌,
  ◌++◌, Option, none, some, Bytes, ascii, length, is_empty, Error, invalid_csr_signature, new, wrap,
  Result, ok, err, context, require, guard, ◌>>=◌, ◌>>◌, if◌then◌else◌,
}
use est.X509.{Certificate, CertificateRequest}
use est.Base64.{decode_string}
use est.Hex.{hex_digit}
use est.Decimal.{decimal, decimal_int}

-- `CA`, without the HTTP client.
pub record EjbcaCa : Type 0 where
  pub base_url : Bytes
  pub ca_name : Bytes
  pub ca_subject_dn : Bytes
  pub certificate_profile_name : Bytes
  pub end_entity_profile_name : Bytes

pub record EnrollRequest : Type 0 where
  pub certificate_request : Bytes
  pub certificate_profile_name : Bytes
  pub end_entity_profile_name : Bytes
  pub certificate_authority_name : Bytes
  pub username : Bytes
  pub password : Bytes
  pub response_format : Bytes

pub record EnrollResponse : Type 0 where
  pub certificate : Bytes

pub record ErrorResponse : Type 0 where
  pub error_code : ℤ
  pub error_message : Bytes

-- The headers are the names and values that are set.
pub record HttpRequest : Type 0 where
  pub method : Bytes
  pub url : Bytes
  pub headers : List (Bytes × Bytes)
  pub body : Bytes

pub record HttpResponse : Type 0 where
  pub status : ℕ
  -- what `io.ReadAll` returns
  pub body : Result Bytes

-- What the backend calls of the standard library.
pub record RestTools : Type 0 where
  pub check_signature : CertificateRequest → Option Error
  pub parse_certificate : Bytes → Result Certificate
  -- the PEM block of type CERTIFICATE REQUEST
  pub pem_encode : Bytes → Bytes
  -- the first block's bytes and the rest of the text
  pub pem_decode : Bytes → Option (Bytes × Bytes)
  pub path_escape : Bytes → Bytes
  pub marshal_enroll_request : EnrollRequest → Result Bytes
  pub unmarshal_enroll_response : Bytes → Result EnrollResponse
  pub unmarshal_error_response : Bytes → Result ErrorResponse
  -- the error of `http.NewRequestWithContext`
  pub check_url : Bytes → Option Error

-- What the calls of `rand.Read` and of the HTTP client yield, one after the other.
pub record Remote : Type 0 where
  pub read : ℕ → Result Bytes
  pub drawn : ℕ
  pub exchange : ℕ → HttpRequest → Result HttpResponse
  pub sent : ℕ

-- `strings.TrimRight(s, "/")`
unfoldable pub trim_slashes : Bytes → Bytes
trim_slashes [] = []
trim_slashes (c ∷ s) =
    let rest = trim_slashes s in
    if is_empty rest then (if c == b'/' then [] else c ∷ []) else c ∷ rest

-- `NewCA` once the client is built.
unfoldable pub new_ejbca_ca : EjbcaCa → EjbcaCa
new_ejbca_ca c = record c { base_url = trim_slashes c.base_url }

-- `hex.EncodeToString`
unfoldable pub encode_hex : Bytes → Bytes
encode_hex [] = []
encode_hex (b ∷ s) = hex_digit (b / 16) ∷ hex_digit (b % 16) ∷ encode_hex s

-- One call of `rand.Read`.
unfoldable pub draw : Remote → Result Bytes × Remote
draw s = (s.read s.drawn, record s { drawn = s.drawn + 1 })

unfoldable pub random_credentials : Remote → Result (Bytes × Bytes) × Remote
random_credentials s =
    let (user, s) = draw s in
    elim user [
      | err e ↦ (err (wrap (ascii "generate username") e), s)
      | ok user_buf ↦
          let (pass, s) = draw s in
          elim pass [
            | err e ↦ (err (wrap (ascii "generate password") e), s)
            | ok pass_buf ↦ (ok (ascii "estd-" ++ encode_hex user_buf, encode_hex pass_buf), s)
          ]
    ]

module _ (T : RestTools) where
  -- `httpError`
  unfoldable pub rest_error : ℕ → Bytes → Error
  rest_error status body =
      let plain = new (ascii "HTTP " ++ (decimal status ++ (ascii ": " ++ body))) in
      elim (T.unmarshal_error_response body) [
        | err e ↦ plain
        | ok er ↦
            if is_empty er.error_message
            then plain
            else new (
                ascii "HTTP "
                ++ (decimal status
                    ++ (ascii ": "
                        ++ (er.error_message
                            ++ (ascii " (error_code "
                                ++ (decimal_int er.error_code ++ ascii ")"))))))
      ]

  -- From `io.ReadAll` to the test of the status.
  unfoldable pub response_body : Bytes → Result HttpResponse → Result Bytes
  response_body read_text answer = do
    resp ← answer
    body ← context read_text resp.body
    (if ltb resp.status 200 || leb 300 resp.status
        then err (wrap (ascii "ejbca") (rest_error resp.status body))
        else ok body)

  -- `http.NewRequestWithContext` and `c.client.Do`, with the texts of their errors.
  unfoldable pub send : Bytes → Bytes → HttpRequest → Remote → Result HttpResponse × Remote
  send build_text request_text request s = elim (T.check_url request.url) [
    | some e ↦ (err (wrap build_text e), s)
    | none ↦ (context request_text (s.exchange s.sent request), record s { sent = s.sent + 1 })
  ]

  -- The loop over the PEM blocks; `none` means that the fuel ran out.
  unfoldable pub read_chain : ℕ → Bytes → List Certificate → Option (Result (List Certificate))
  read_chain zero rest certs = none
  read_chain (suc fuel) rest certs = elim (T.pem_decode rest) [
    | none ↦ some (ok certs)
    | some (block, rest) ↦ elim (T.parse_certificate block) [
      | err e ↦ some (err (wrap (ascii "ejbca: parse CA certificate") e))
      | ok cert ↦ read_chain fuel rest (certs ++ (cert ∷ []))
    ]
  ]

  -- A block takes a byte at least, and the last round finds none.
  unfoldable pub read_ca_certificates : Bytes → Option (Result (List Certificate))
  read_ca_certificates body = elim (read_chain (suc (length body)) body []) [
    | none ↦ none
    | some r ↦ some (do
      certs ← r
      guard (not (is_empty certs))
          (new (ascii "ejbca: no certificates found in CA certificate download response"))
      ok certs)
  ]

  unfoldable pub ejbca_ca_certificates :
      EjbcaCa → Remote → Option (Result (List Certificate)) × Remote
  ejbca_ca_certificates c s =
      let url =
        c.base_url
        ++ (ascii "/ca/" ++ (T.path_escape c.ca_subject_dn ++ ascii "/certificate/download")) in
      let (answer, s) =
        send (ascii "ejbca: build CA certificate request") (ascii "ejbca: CA certificate request")
          (record { method = ascii "GET"; url = url; headers = []; body = [] }) s in
      elim (response_body (ascii "ejbca: read CA certificate response") answer) [
        | err e ↦ (some (err e), s)
        | ok body ↦ (read_ca_certificates body, s)
      ]

  -- From `json.Unmarshal` of the response to the end.
  unfoldable pub check_enrolled : Bytes → Result Certificate
  check_enrolled body = do
    er ← context (ascii "ejbca: unmarshal enroll response") (T.unmarshal_enroll_response body)
    der ← context (ascii "ejbca: base64-decode issued certificate") (decode_string er.certificate)
    cert ← context (ascii "ejbca: parse issued certificate") (T.parse_certificate der)
    guard (not cert.is_ca) (new (ascii "ejbca: issued certificate has CA:TRUE"))
    ok cert

  abbrev pub enroll_request_of : EjbcaCa → CertificateRequest → Bytes → Bytes → EnrollRequest
  enroll_request_of c csr username password = record {
    certificate_request = T.pem_encode csr.raw;
    certificate_profile_name = c.certificate_profile_name;
    end_entity_profile_name = c.end_entity_profile_name;
    certificate_authority_name = c.ca_name;
    username = username;
    password = password;
    response_format = ascii "DER";
  }

  abbrev pub enroll_post : EjbcaCa → Bytes → HttpRequest
  enroll_post c body = record {
    method = ascii "POST";
    url = c.base_url ++ ascii "/certificate/pkcs10enroll";
    headers =
        (ascii "Content-Type", ascii "application/json")
        ∷ (ascii "Accept", ascii "application/json")
        ∷ [];
    body = body;
  }

  -- From `json.Marshal` of the request.
  unfoldable pub enroll :
      EjbcaCa → CertificateRequest → Bytes → Bytes → Remote → Result Certificate × Remote
  enroll c csr username password s =
      elim (T.marshal_enroll_request (enroll_request_of c csr username password)) [
        | err e ↦ (err (wrap (ascii "ejbca: marshal enroll request") e), s)
        | ok body ↦
            let (answer, s) =
              send (ascii "ejbca: build enroll request") (ascii "ejbca: enroll request")
                (enroll_post c body) s in
            (response_body (ascii "ejbca: read enroll response") answer >>= check_enrolled, s)
      ]

  unfoldable pub ejbca_issue_certificate :
      EjbcaCa → CertificateRequest → Remote → Result Certificate × Remote
  ejbca_issue_certificate c csr s = elim (T.check_signature csr) [
    | some e ↦ (err invalid_csr_signature, s)
    | none ↦
        let (credentials, s) = random_credentials s in
        elim credentials [
          | err e ↦ (err (wrap (ascii "ejbca") e), s)
          | ok (username, password) ↦ enroll c csr username password s
        ]
  ]
