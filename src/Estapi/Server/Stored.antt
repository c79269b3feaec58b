-- ===== src/Estapi/Server/Stored.antt =====
-- What a sequence of requests, one after the other, keeps true of the store.
use mathlib.Core.List.{foldl}
use est.Common.{
  ◌≡◌, refl, sym, arith, ◌⊎◌, subst, List, [], ◌∷◌, Bytes, Error, ok, err, Result-cases, Bool-cases,
  inl, inr,
}
use est.X509.{Certificate, CertificateRequest}
use est.Ca.{CaBackend}
use est.Store.{Store, Metadata, IsLawful}
use est.Store.Kept.{HasCsr, HasCsrs, put_csr-HasCsrs, put_certificate-HasCsrs}
use est.Estapi.Encoding.{Response, decode_csr_body}
use est.Estapi.Identity.{peer_certificate, identities_match}
use est.Estapi.Server.{Platform, Request, Route, World, respond_with, persist_certificate, persist}
use est.Estapi.Server.{
  issue_and_respond, handle_simple_enroll, handle_simple_reenroll, serve, route, handle_ca_certs,
  handle_csr_attrs,
}

module _ (P : Platform) (B : CaBackend) {S : Store} (L : IsLawful S) where
  respond_with-store :
      (cert : Certificate) (w : World B S) → (respond_with P B S cert w).1.store ≡ w.store
  unfolding respond_with
  respond_with-store cert w = ground arith

  persist_certificate-store :
      (cert : Certificate) (meta : Metadata) (w : World B S)
      → (persist_certificate P B S cert meta w).1.store
        ≡ (S.put_certificate cert.serial_number cert.raw meta w.store).1
  unfolding persist_certificate
  persist_certificate-store cert meta w =
      let (r, s) = S.put_certificate cert.serial_number cert.raw meta w.store in
      ground (arith, respond_with-store cert (record w { store = s }))

  persist-HasCsrs :
      (csr : CertificateRequest) (cert : Certificate) (meta : Metadata) (w : World B S)
      → HasCsrs L w.store
      → HasCsrs L (persist P B S csr cert meta w).1.store
  unfolding persist
  persist-HasCsrs csr cert meta w h =
      let n = cert.serial_number in
      let (r, s1) = S.put_csr n csr.raw meta w.store in
      let w1 : World B S = record w { store = s1 } in
      let first = put_csr-HasCsrs L n csr.raw meta w.store h in
      elim (Result-cases r) [
        | inl (_, e) ↦
            let here : HasCsr L s1 n = ground (arith, L.csr-put_csr n csr.raw meta w.store e) in
            let after : (persist P B S csr cert meta w).1.store
                ≡ (S.put_certificate n cert.raw meta s1).1 =
              ground (arith, e, persist_certificate-store cert meta w1) in
            subst (HasCsrs L) (sym after) (put_certificate-HasCsrs L n cert.raw meta s1 first here)
        | inr (x, e) ↦
            let after : (persist P B S csr cert meta w).1.store ≡ s1 = ground (arith, e) in
            subst (HasCsrs L) (sym after) first
      ]

  issue_and_respond-HasCsrs :
      (r : Request) (csr : CertificateRequest) (peer : Certificate) (w : World B S)
      → HasCsrs L w.store
      → HasCsrs L (issue_and_respond P B S r csr peer w).1.store
  unfolding issue_and_respond
  issue_and_respond-HasCsrs r csr peer w h =
      let (issued, ca) = B.issue_certificate csr w.ca in
      let w1 : World B S = record w { ca = ca } in
      let meta : Metadata = record {
        requester = peer.subject.common_name;
        remote_addr = r.remote_addr;
        received_at = r.received_at;
      } in
      elim (Result-cases issued) [
        | inl (cert, e) ↦ rw (e, issue_and_respond) (persist-HasCsrs csr cert meta w1 h)
        | inr (x, e) ↦
            let same : (issue_and_respond P B S r csr peer w).1.store ≡ w.store =
              ground (arith, e) in
            subst (HasCsrs L) (sym same) h
      ]

  -- A request is answered by `issue_and_respond`, or leaves the store as it is.
  abbrev Issues : Request → World B S → Response × World B S → Type 0
  Issues r w out =
      (peer : Certificate) × (csr : CertificateRequest) × (peer_certificate r.tls ≡ ok peer)
      × (out ≡ issue_and_respond P B S r csr peer w)

  handle_simple_enroll_cases :
      (r : Request) (w : World B S)
      → Issues r w (handle_simple_enroll P B S r w)
        ⊎ ((handle_simple_enroll P B S r w).1.store ≡ w.store)
  unfolding handle_simple_enroll
  handle_simple_enroll_cases r w = elim (Result-cases (peer_certificate r.tls)) [
    | inl (peer, ep) ↦ elim (Result-cases (decode_csr_body P.parse_certificate_request r.body)) [
      | inl (csr, ec) ↦ inl (peer, csr, ep, ground (arith, ep, ec))
      | inr (x, ec) ↦ inr (ground (arith, ep, ec))
    ]
    | inr (x, ep) ↦ inr (ground (arith, ep))
  ]

  handle_simple_reenroll_cases :
      (r : Request) (w : World B S)
      → Issues r w (handle_simple_reenroll P B S r w)
        ⊎ ((handle_simple_reenroll P B S r w).1.store ≡ w.store)
  unfolding handle_simple_reenroll
  handle_simple_reenroll_cases r w = elim (Result-cases (peer_certificate r.tls)) [
    | inl (peer, ep) ↦ elim (Result-cases (decode_csr_body P.parse_certificate_request r.body)) [
      | inl (csr, ec) ↦ elim (Bool-cases (identities_match P.ip_string P.url_string peer csr)) [
        | inl same ↦ inl (peer, csr, ep, ground (arith, ep, ec, same))
        | inr differ ↦ inr (ground (arith, ep, ec, differ))
      ]
      | inr (x, ec) ↦ inr (ground (arith, ep, ec))
    ]
    | inr (x, ep) ↦ inr (ground (arith, ep))
  ]

  serve_cases :
      (csr_attrs_der : Bytes) (r : Request) (w : World B S)
      → Issues r w (serve P B S csr_attrs_der r w)
        ⊎ ((serve P B S csr_attrs_der r w).1.store ≡ w.store)
  unfolding serve handle_ca_certs handle_csr_attrs
  serve_cases csr_attrs_der r w = go (route r.method r.path) refl
    where
      go :
          (t : Route)
          → route r.method r.path ≡ t
          → Issues r w (serve P B S csr_attrs_der r w)
            ⊎ ((serve P B S csr_attrs_der r w).1.store ≡ w.store)
      go Route.ca_certs e = inr (ground (arith, e))
      go Route.simple_enroll e = rw (e, serve) (handle_simple_enroll_cases r w)
      go Route.simple_reenroll e = rw (e, serve) (handle_simple_reenroll_cases r w)
      go Route.csr_attrs e = inr (ground (arith, e))
      go Route.method_not_allowed e = inr (ground (arith, e))
      go Route.not_found e = inr (ground (arith, e))

  -- Without a client certificate no request of any kind changes the store.
  pub serve-store_without_peer :
      (csr_attrs_der : Bytes) (r : Request) (w : World B S) {e : Error}
      → peer_certificate r.tls ≡ err e
      → (serve P B S csr_attrs_der r w).1.store ≡ w.store
  serve-store_without_peer csr_attrs_der r w h = elim (serve_cases csr_attrs_der r w) [
    | inl (peer, csr, ep, _) ↦ cc (ep, h)
    | inr same ↦ same
  ]

  serve-HasCsrs :
      (csr_attrs_der : Bytes) (r : Request) (w : World B S)
      → HasCsrs L w.store
      → HasCsrs L (serve P B S csr_attrs_der r w).1.store
  serve-HasCsrs csr_attrs_der r w h = elim (serve_cases csr_attrs_der r w) [
    | inl (peer, csr, _, e) ↦
        subst (λ o. HasCsrs L o.1.store) (sym e) (issue_and_respond-HasCsrs r csr peer w h)
    | inr same ↦ subst (HasCsrs L) (sym same) h
  ]

  -- The world after requests that were served one after the other.
  abbrev pub serve_all : Bytes → World B S → List Request → World B S
  serve_all csr_attrs_der = foldl (λ w r. (serve P B S csr_attrs_der r w).1)

  -- Whatever is requested, every certificate in the store has its CSR beside it.
  pub serve_all-HasCsrs :
      (csr_attrs_der : Bytes) (rs : List Request) (w : World B S)
      → HasCsrs L w.store
      → HasCsrs L (serve_all csr_attrs_der w rs).store
  serve_all-HasCsrs csr_attrs_der [] w h = h
  serve_all-HasCsrs csr_attrs_der (r ∷ rs) w h =
      serve_all-HasCsrs csr_attrs_der rs _ (serve-HasCsrs csr_attrs_der r w h)
