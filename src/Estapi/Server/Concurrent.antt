-- ===== src/Estapi/Server/Concurrent.antt =====
-- The handlers of internal/estapi/handlers.go cut at their calls of the backend and of the store, as
-- `net/http` runs them: every request in its own goroutine. A call of the backend or of the store is
-- one step, which `CABackend` and `Store` are made for; other steps come between them in any order.
pub mod Begin
pub mod Alone
pub mod Sound
pub mod Steps
pub mod Consistent
use mathlib.Core.List.{foldl}
use est.Common.{
  set_at, ℕ, Bool, not, ◌==◌, List, [], ◌∷◌, Option, none, some, Bytes, ascii, error_text, ok, err,
  if◌then◌else◌,
}
use est.X509.{Certificate, CertificateRequest}
use est.Ca.{CaBackend, is_invalid_csr_signature}
use est.Store.{Store, Metadata}
use est.Estapi.Encoding.{Response, decode_csr_body}
use est.Estapi.Identity.{peer_certificate, identities_match}
use est.Estapi.Server.{
  Platform, Request, Route, World, logged, http_error, internal_error, route, handle_ca_certs,
  handle_csr_attrs, respond_with,
}

-- How far the goroutine of a request is: which call is the next, with the variables that are live.
pub data Phase : Type 0 where
  waiting : Phase
  arrived : Request → Phase
  issuing : Request → CertificateRequest → Certificate → Phase
  putting_csr : Request → CertificateRequest → Certificate → Metadata → Phase
  putting_certificate : Request → Certificate → Metadata → Phase
  encoding : Request → Certificate → Phase
  answered : Request → Response → Phase

-- `handleSimpleEnroll` and `handleSimpleReenroll` up to the call of `issueAndRespond`.
module _ (P : Platform) (r : Request) where
  unfoldable pub begin_enroll : Phase
  begin_enroll = elim (peer_certificate r.tls) [
    | err e ↦ answered r (http_error (ascii "client certificate required") 401)
    | ok peer ↦ elim (decode_csr_body P.parse_certificate_request r.body) [
      | err e ↦ answered r (http_error (error_text e) 400)
      | ok csr ↦ issuing r csr peer
    ]
  ]

  unfoldable pub begin_reenroll : Phase
  begin_reenroll = elim (peer_certificate r.tls) [
    | err e ↦ answered r (http_error (ascii "client certificate required") 401)
    | ok peer ↦ elim (decode_csr_body P.parse_certificate_request r.body) [
      | err e ↦ answered r (http_error (error_text e) 400)
      | ok csr ↦
          if not (identities_match P.ip_string P.url_string peer csr)
          then answered r (
              http_error (ascii "CSR identity does not match authenticated client certificate") 403)
          else issuing r csr peer
    ]
  ]

module _ (P : Platform) (B : CaBackend) (S : Store) (csr_attrs_der : Bytes) where
  -- The parts of a handler from one call to before the next.
  unfoldable pub dispatch : Request → World B S → Phase × World B S
  dispatch r w = elim (route r.method r.path) [
    | Route.ca_certs ↦ let (out, w) = handle_ca_certs P B S w in (answered r out, w)
    | Route.simple_enroll ↦ (begin_enroll P r, w)
    | Route.simple_reenroll ↦ (begin_reenroll P r, w)
    | Route.csr_attrs ↦ let (out, w) = handle_csr_attrs P B S csr_attrs_der w in (answered r out, w)
    | Route.method_not_allowed ↦ (answered r (http_error (ascii "Method Not Allowed") 405), w)
    | Route.not_found ↦ (answered r (http_error (ascii "404 page not found") 404), w)
  ]

  unfoldable pub issue_call :
      Request → CertificateRequest → Certificate → World B S → Phase × World B S
  issue_call r csr peer w =
      let (issued, ca) = B.issue_certificate csr w.ca in
      let w = record w { ca = ca } in
      elim issued [
        | err e ↦
            if is_invalid_csr_signature e
            then (answered r (http_error (ascii "CSR signature does not verify") 400), w)
            else (
              answered r internal_error,
              logged B S (ascii "issue certificate: backend error") e w,
            )
        | ok cert ↦ (
          putting_csr r csr cert (record {
            requester = peer.subject.common_name;
            remote_addr = r.remote_addr;
            received_at = r.received_at;
          }),
          w,
        )
      ]

  unfoldable pub put_csr_call :
      Request → CertificateRequest → Certificate → Metadata → World B S → Phase × World B S
  put_csr_call r csr cert meta w =
      let (done, store) = S.put_csr cert.serial_number csr.raw meta w.store in
      let w = record w { store = store } in
      elim done [
        | err e ↦ (answered r internal_error, logged B S (ascii "persist CSR") e w)
        | ok _ ↦ (putting_certificate r cert meta, w)
      ]

  unfoldable pub put_certificate_call :
      Request → Certificate → Metadata → World B S → Phase × World B S
  put_certificate_call r cert meta w =
      let (done, store) = S.put_certificate cert.serial_number cert.raw meta w.store in
      let w = record w { store = store } in
      elim done [
        | err e ↦ (answered r internal_error, logged B S (ascii "persist certificate") e w)
        | ok _ ↦ (encoding r cert, w)
      ]

  -- One step of a goroutine.
  unfoldable pub advance : Phase → World B S → Phase × World B S
  advance waiting w = (waiting, w)
  advance (arrived r) w = dispatch r w
  advance (issuing r csr peer) w = issue_call r csr peer w
  advance (putting_csr r csr cert meta) w = put_csr_call r csr cert meta w
  advance (putting_certificate r cert meta) w = put_certificate_call r cert meta w
  advance (encoding r cert) w = let (out, w) = respond_with P B S cert w in (answered r out, w)
  advance (answered r out) w = (answered r out, w)

  -- The goroutines, by number, and what they share.
  pub record System : Type 0 where
    pub world : World B S
    pub phase : ℕ → Phase

-- A request comes to a goroutine that waits for one, or a goroutine goes on.
pub data Event : Type 0 where
  arrive : ℕ → Request → Event
  go_on : ℕ → Event

unfoldable pub receive : Request → Phase → Phase
receive r waiting = arrived r
receive r p = p

module _ (P : Platform) (B : CaBackend) (S : Store) (csr_attrs_der : Bytes) where
  unfoldable pub take_event : System P B S csr_attrs_der → Event → System P B S csr_attrs_der
  take_event s (arrive i r) = record s { phase = set_at i (receive r (s.phase i)) s.phase }
  take_event s (go_on i) =
      let (p, w) = advance P B S csr_attrs_der (s.phase i) s.world in
      record { world = w; phase = set_at i p s.phase }

  -- The events happen one after the other, in the order in which the scheduler takes them.
  abbrev pub interleave : System P B S csr_attrs_der → List Event → System P B S csr_attrs_der
  interleave = foldl take_event
