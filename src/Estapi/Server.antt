-- ===== src/Estapi/Server.antt =====
-- internal/estapi/server.go and handlers.go: the four endpoints, over any CA backend and any store.
-- A handler maps a request and the world to the response and the world that it leaves.
pub mod Available
pub mod Enroll
pub mod Stored
pub mod Client
pub mod Concurrent
pub mod Delivered
use est.Common.{
  ℕ, ℤ, Bool, true, false, not, ◌&&◌, ◌||◌, List, [], ◌∷◌, ◌++◌, Option, none, some, Bytes, ascii,
  str_eq, is_empty, if◌then◌else◌,
}
use est.Common.{Error, Result, ok, err, error_text}
use est.X509.{Certificate, CertificateRequest, Url, Ip}
use est.Cryptobyte.{Cryptobyte}
use est.Pkcs7.{encode_certs_only}
use est.Ca.{CaBackend, is_invalid_csr_signature}
use est.Store.{Store, Metadata}
use est.Estapi.Encoding.{
  Body, Response, decode_csr_body, write_pkcs7_response, write_base64_response,
  content_type_csr_attrs,
}
use est.Estapi.Identity.{peer_certificate, identities_match}

-- What the handlers use of libraries: cryptobyte, `x509.ParseCertificateRequest`, and the `String`
-- methods of `net.IP` and `url.URL`.
pub record Platform : Type 1 where
  pub cryptobyte : Cryptobyte
  pub parse_certificate_request : Bytes → Result CertificateRequest
  pub ip_string : Ip → Bytes
  pub url_string : Url → Bytes

-- `tls` is `r.TLS.PeerCertificates`, or `none` without TLS. `received_at` is what `time.Now` returns.
pub record Request : Type 0 where
  pub method : Bytes
  pub path : Bytes
  pub tls : Option (List Certificate)
  pub remote_addr : Bytes
  pub body : Body
  pub received_at : ℤ

-- `http.Error`
unfoldable pub http_error : Bytes → ℕ → Response
http_error message status = record {
  status = status;
  content_type = some (ascii "text/plain; charset=utf-8");
  body = message ++ (b'\n' ∷ []);
}

unfoldable pub internal_error : Response
unfolding http_error
internal_error = http_error (ascii "internal error") 500

pub data Route : Type 0 where
  ca_certs simple_enroll simple_reenroll csr_attrs method_not_allowed not_found : Route

-- A `GET` pattern of `http.ServeMux` takes `HEAD` too.
unfoldable pub is_get : Bytes → Bool
is_get method = str_eq method (ascii "GET") || str_eq method (ascii "HEAD")

-- The four patterns that `Handler` registers.
unfoldable pub route : Bytes → Bytes → Route
unfolding is_get
route method path =
    if str_eq path (ascii "/.well-known/est/cacerts")
    then (if is_get method then ca_certs else method_not_allowed)
    else if str_eq path (ascii "/.well-known/est/simpleenroll")
    then (if str_eq method (ascii "POST") then simple_enroll else method_not_allowed)
    else if str_eq path (ascii "/.well-known/est/simplereenroll")
    then (if str_eq method (ascii "POST") then simple_reenroll else method_not_allowed)
    else if str_eq path (ascii "/.well-known/est/csrattrs")
    then (if is_get method then csr_attrs else method_not_allowed)
    else not_found

module _ (B : CaBackend) (S : Store) where
  -- The states of the backend and of the store, and what `slog.Error` was given, the last in front.
  pub record World : Type 0 where
    pub ca : B.State
    pub store : S.State
    pub log : List (Bytes × Error)

  abbrev pub logged : Bytes → Error → World → World
  logged message e w = record w { log = (message, e) ∷ w.log }

module _ (P : Platform) (B : CaBackend) (S : Store) where
  unfoldable pub handle_ca_certs : World B S → Response × World B S
  handle_ca_certs w =
      let (certs, ca) = B.ca_certificates w.ca in
      let w = record w { ca = ca } in
      elim certs [
        | err e ↦ (internal_error, logged B S (ascii "cacerts: backend error") e w)
        | ok certs ↦ elim (encode_certs_only P.cryptobyte certs) [
          | err e ↦ (internal_error, logged B S (ascii "cacerts: encode error") e w)
          | ok der ↦ (write_pkcs7_response der, w)
        ]
      ]

  -- The end of `issueAndRespond`, from `pkcs7.EncodeCertsOnly`.
  unfoldable pub respond_with : Certificate → World B S → Response × World B S
  respond_with cert w = elim (encode_certs_only P.cryptobyte (some cert ∷ [])) [
    | err e ↦ (internal_error, logged B S (ascii "encode issued certificate") e w)
    | ok der ↦ (write_pkcs7_response der, w)
  ]

  -- From `s.Store.PutCertificate`.
  unfoldable pub persist_certificate : Certificate → Metadata → World B S → Response × World B S
  persist_certificate cert meta w =
      let (r, store) = S.put_certificate cert.serial_number cert.raw meta w.store in
      let w = record w { store = store } in
      elim r [
        | err e ↦ (internal_error, logged B S (ascii "persist certificate") e w)
        | ok _ ↦ respond_with cert w
      ]

  -- From `s.Store.PutCSR`.
  unfoldable pub persist :
      CertificateRequest → Certificate → Metadata → World B S → Response × World B S
  persist csr cert meta w =
      let (r, store) = S.put_csr cert.serial_number csr.raw meta w.store in
      let w = record w { store = store } in
      elim r [
        | err e ↦ (internal_error, logged B S (ascii "persist CSR") e w)
        | ok _ ↦ persist_certificate cert meta w
      ]

  unfoldable pub issue_and_respond :
      Request → CertificateRequest → Certificate → World B S → Response × World B S
  issue_and_respond r csr peer w =
      let (issued, ca) = B.issue_certificate csr w.ca in
      let w = record w { ca = ca } in
      let meta : Metadata = record {
        requester = peer.subject.common_name;
        remote_addr = r.remote_addr;
        received_at = r.received_at;
      } in
      elim issued [
        | err e ↦
            if is_invalid_csr_signature e
            then (http_error (ascii "CSR signature does not verify") 400, w)
            else (internal_error, logged B S (ascii "issue certificate: backend error") e w)
        | ok cert ↦ persist csr cert meta w
      ]

  unfoldable pub handle_simple_enroll : Request → World B S → Response × World B S
  handle_simple_enroll r w = elim (peer_certificate r.tls) [
    | err e ↦ (http_error (ascii "client certificate required") 401, w)
    | ok peer ↦ elim (decode_csr_body P.parse_certificate_request r.body) [
      | err e ↦ (http_error (error_text e) 400, w)
      | ok csr ↦ issue_and_respond r csr peer w
    ]
  ]

  unfoldable pub handle_simple_reenroll : Request → World B S → Response × World B S
  handle_simple_reenroll r w = elim (peer_certificate r.tls) [
    | err e ↦ (http_error (ascii "client certificate required") 401, w)
    | ok peer ↦ elim (decode_csr_body P.parse_certificate_request r.body) [
      | err e ↦ (http_error (error_text e) 400, w)
      | ok csr ↦
          if not (identities_match P.ip_string P.url_string peer csr)
          then (
            http_error (ascii "CSR identity does not match authenticated client certificate") 403,
            w,
          )
          else issue_and_respond r csr peer w
    ]
  ]

  -- `csr_attrs_der` is the server's field `CSRAttrsDER`.
  unfoldable pub handle_csr_attrs : Bytes → World B S → Response × World B S
  handle_csr_attrs csr_attrs_der w =
      if is_empty csr_attrs_der
      then (record { status = 204; content_type = none; body = [] }, w)
      else (write_base64_response content_type_csr_attrs csr_attrs_der, w)

  -- A request through the mux. Requests whose path is not clean are redirected before this.
  unfoldable pub serve : Bytes → Request → World B S → Response × World B S
  serve csr_attrs_der r w = elim (route r.method r.path) [
    | ca_certs ↦ handle_ca_certs w
    | simple_enroll ↦ handle_simple_enroll r w
    | simple_reenroll ↦ handle_simple_reenroll r w
    | csr_attrs ↦ handle_csr_attrs csr_attrs_der w
    | method_not_allowed ↦ (http_error (ascii "Method Not Allowed") 405, w)
    | not_found ↦ (http_error (ascii "404 page not found") 404, w)
  ]
