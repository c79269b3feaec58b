-- ===== src/Estapi/Server/Concurrent/Alone.antt =====
-- A goroutine that no other disturbs does what the handler does.
use est.Common.{ℕ, zero, suc, ◌≡◌, refl, arith, Bytes, Result-cases, Bool-cases, inl, inr}
use est.X509.{Certificate, CertificateRequest}
use est.Ca.{CaBackend}
use est.Store.{Store, Metadata}
use est.Estapi.Encoding.{Response, decode_csr_body}
use est.Estapi.Identity.{peer_certificate, identities_match}
use est.Estapi.Server.{
  Platform, Request, Route, World, route, persist_certificate, persist, issue_and_respond,
  handle_simple_enroll, handle_simple_reenroll, serve,
}
use est.Estapi.Server.Concurrent.{
  Phase, begin_enroll, begin_reenroll, dispatch, issue_call, put_csr_call, put_certificate_call,
  advance,
}

module _ (P : Platform) (B : CaBackend) (S : Store) (csr_attrs_der : Bytes) where
  -- So many steps of one goroutine.
  abbrev pub advance_times : ℕ → Phase → World B S → Phase × World B S
  advance_times zero p w = (p, w)
  advance_times (suc n) p w =
      let (p', w') = advance P B S csr_attrs_der p w in advance_times n p' w'

  -- The phase of a request that was answered, and the world that this left.
  abbrev pub done : Request → Response × World B S → Phase × World B S
  done r out = (Phase.answered r out.0, out.1)

  answered-advance_times :
      (n : ℕ) (r : Request) (out : Response) (w : World B S)
      → advance_times n (Phase.answered r out) w ≡ (Phase.answered r out, w)
  unfolding advance
  answered-advance_times zero r out w = refl
  answered-advance_times (suc n) r out w = answered-advance_times n r out w

  putting_certificate-advance_times :
      (r : Request) (cert : Certificate) (meta : Metadata) (w : World B S)
      → advance_times 2 (Phase.putting_certificate r cert meta) w
        ≡ done r (persist_certificate P B S cert meta w)
  unfolding advance put_certificate_call persist_certificate
  putting_certificate-advance_times r cert meta w =
      let (r1, s1) = S.put_certificate cert.serial_number cert.raw meta w.store in
      elim (Result-cases r1) [ inl (_, e) ↦ ground (arith, e) | inr (x, e) ↦ ground (arith, e) ]

  putting_csr-advance_times :
      (r : Request) (csr : CertificateRequest) (cert : Certificate) (meta : Metadata)
      (w : World B S)
      → advance_times 3 (Phase.putting_csr r csr cert meta) w
        ≡ done r (persist P B S csr cert meta w)
  unfolding advance put_csr_call persist
  putting_csr-advance_times r csr cert meta w =
      let (r1, s1) = S.put_csr cert.serial_number csr.raw meta w.store in
      elim (Result-cases r1) [
        | inl (_, e) ↦
            ground
              (arith, e, putting_certificate-advance_times r cert meta (record w { store = s1 }))
        | inr (x, e) ↦ ground (arith, e)
      ]

  issuing-advance_times :
      (r : Request) (csr : CertificateRequest) (peer : Certificate) (w : World B S)
      → advance_times 4 (Phase.issuing r csr peer) w ≡ done r (issue_and_respond P B S r csr peer w)
  unfolding advance issue_call issue_and_respond
  issuing-advance_times r csr peer w =
      let (issued, ca) = B.issue_certificate csr w.ca in
      let meta : Metadata = record {
        requester = peer.subject.common_name;
        remote_addr = r.remote_addr;
        received_at = r.received_at;
      } in
      elim (Result-cases issued) [
        | inl (cert, e) ↦
            ground (arith, e, putting_csr-advance_times r csr cert meta (record w { ca = ca }))
        | inr (x, e) ↦ ground (arith, e)
      ]

  begin_enroll-advance_times :
      (r : Request) (w : World B S)
      → advance_times 4 (begin_enroll P r) w ≡ done r (handle_simple_enroll P B S r w)
  unfolding advance begin_enroll handle_simple_enroll
  begin_enroll-advance_times r w = elim (Result-cases (peer_certificate r.tls)) [
    | inl (peer, ep) ↦ elim (Result-cases (decode_csr_body P.parse_certificate_request r.body)) [
      | inl (csr, ec) ↦ ground (arith, ep, ec, issuing-advance_times r csr peer w)
      | inr (x, ec) ↦ ground (arith, ep, ec)
    ]
    | inr (x, ep) ↦ ground (arith, ep)
  ]

  begin_reenroll-advance_times :
      (r : Request) (w : World B S)
      → advance_times 4 (begin_reenroll P r) w ≡ done r (handle_simple_reenroll P B S r w)
  unfolding advance begin_reenroll handle_simple_reenroll
  begin_reenroll-advance_times r w = elim (Result-cases (peer_certificate r.tls)) [
    | inl (peer, ep) ↦ elim (Result-cases (decode_csr_body P.parse_certificate_request r.body)) [
      | inl (csr, ec) ↦ elim (Bool-cases (identities_match P.ip_string P.url_string peer csr)) [
        | inl same ↦ ground (arith, ep, ec, same, issuing-advance_times r csr peer w)
        | inr differ ↦ ground (arith, ep, ec, differ)
      ]
      | inr (x, ec) ↦ ground (arith, ep, ec)
    ]
    | inr (x, ep) ↦ ground (arith, ep)
  ]

  -- Five steps of the goroutine of a request, with no other between them, give the response and the
  -- world of the handler that runs as a whole.
  pub arrived-advance_times :
      (r : Request) (w : World B S)
      → advance_times 5 (Phase.arrived r) w
        ≡ (Phase.answered r (serve P B S csr_attrs_der r w).0, (serve P B S csr_attrs_der r w).1)
  unfolding advance dispatch serve
  arrived-advance_times r w = go (route r.method r.path) refl
    where
      go :
          (t : Route)
          → route r.method r.path ≡ t
          → advance_times 5 (Phase.arrived r) w ≡ done r (serve P B S csr_attrs_der r w)
      go Route.ca_certs e = ground (arith, e)
      go Route.simple_enroll e = ground (arith, e, begin_enroll-advance_times r w)
      go Route.simple_reenroll e = ground (arith, e, begin_reenroll-advance_times r w)
      go Route.csr_attrs e = ground (arith, e)
      go Route.method_not_allowed e = ground (arith, e)
      go Route.not_found e = ground (arith, e)
