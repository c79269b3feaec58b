-- ===== src/Estapi/Server/Concurrent/Steps.antt =====
-- What one step of a goroutine keeps.
use est.Common.{
  ℕ, ℤ, ◌≡◌, ◌≢◌, ◌∙◌, ap, refl, sym, subst, arith, [], ◌∷◌, some, Bytes, inl, inr, Result-cases,
  Bool-cases,
}
use est.X509.{Certificate, CertificateRequest}
use est.Pkcs7.{encode_certs_only}
use est.Ca.{CaBackend, is_invalid_csr_signature}
use est.Store.{Store, Metadata, IsLawful}
use est.Store.Kept.{HasCsrs, put_csr-HasCsrs, put_certificate-HasCsrs}
use est.Estapi.Server.{
  Platform, Request, Route, World, route, http_error, internal_error, handle_ca_certs,
  handle_csr_attrs, respond_with,
}
use est.Estapi.Server.Concurrent.Begin.{begin_enroll_cases, begin_reenroll_cases}
use est.Estapi.Server.Concurrent.{
  Phase, begin_enroll, begin_reenroll, dispatch, issue_call, put_csr_call, put_certificate_call,
  advance,
}
use est.Estapi.Server.Concurrent.Sound.{IsAllowed, IsIssued, StoresCsr, IsSound, Keeps, IssuesOwn}

module _ (P : Platform) (B : CaBackend) {S : Store} (L : IsLawful S) (csr_attrs_der : Bytes)
    (owner : ℤ → ℕ) where
  abbrev Sound : S.State → ℕ → Phase → Type 0
  Sound = IsSound P B L owner

  -- A step of a goroutine keeps what is stored under the serial numbers of the others, leaves every
  -- certificate with its CSR, and what the goroutine is left with holds of it.
  pub record IsKept (i : ℕ) (s : S.State) (out : Phase × World B S) : Type 0 where
    pub others : (j : ℕ) → i ≢ j → Keeps P B L owner j s out.1.store
    pub csrs : HasCsrs L out.1.store
    pub sound : Sound out.1.store i out.0

  -- A step that leaves the store as it is.
  same_store :
      (i : ℕ) (w : World B S) (out : Phase × World B S)
      → HasCsrs L w.store
      → out.1.store ≡ w.store
      → Sound w.store i out.0
      → IsKept i w.store out
  same_store i w (p, w') h same sound = record {
    others = λ j ne. record {
      csr = λ k o. ap (λ s. L.csr s k) same;
      certificate = λ k o. ap (λ s. L.certificate s k) same;
    };
    csrs = subst (HasCsrs L) (sym same) h;
    sound = subst (λ s. Sound s i p) (sym same) sound;
  }

  -- A put under a serial number of one goroutine changes none of another.
  put_csr-Keeps :
      (i j : ℕ) (n : ℤ) (der : Bytes) (m : Metadata) (s : S.State)
      → owner n ≡ i
      → i ≢ j
      → Keeps P B L owner j s (S.put_csr n der m s).1
  put_csr-Keeps i j n der m s own ne = record {
    csr = λ k o. L.csr-put_csr_ne n der m s k (λ e. ne (sym own ∙ ap owner e ∙ o));
    certificate = λ k o. L.certificate-put_csr n der m s k;
  }

  put_certificate-Keeps :
      (i j : ℕ) (n : ℤ) (der : Bytes) (m : Metadata) (s : S.State)
      → owner n ≡ i
      → i ≢ j
      → Keeps P B L owner j s (S.put_certificate n der m s).1
  put_certificate-Keeps i j n der m s own ne = record {
    csr = λ k o. L.csr-put_certificate n der m s k;
    certificate =
        λ k o. L.certificate-put_certificate_ne n der m s k (λ e. ne (sym own ∙ ap owner e ∙ o));
  }

  begin_enroll-IsSound :
      (r : Request) (s : S.State) (i : ℕ)
      → route r.method r.path ≡ Route.simple_enroll
      → Sound s i (begin_enroll P r)
  begin_enroll-IsSound r s i here = elim (begin_enroll_cases P r) [
    | inl (peer, csr, (e, ep, ec)) ↦ subst (Sound s i) (sym e) (record {
      peer = peer;
      authenticated = ep;
      decoded = ec;
      matches = λ there. cc (here, there);
    })
    | inr (out, e, refused) ↦ subst (Sound s i) (sym e) (λ _ good. absurd (refused good))
  ]

  begin_reenroll-IsSound : (r : Request) (s : S.State) (i : ℕ) → Sound s i (begin_reenroll P r)
  begin_reenroll-IsSound r s i = elim (begin_reenroll_cases P r) [
    | inl (peer, csr, same, (e, ep, ec)) ↦
        subst (Sound s i) (sym e)
          (record { peer = peer; authenticated = ep; decoded = ec; matches = λ _. same })
    | inr (out, e, refused) ↦ subst (Sound s i) (sym e) (λ _ good. absurd (refused good))
  ]

  -- A request that asks for no enrollment answers for nothing.
  dispatch-IsKept :
      (i : ℕ) (r : Request) (w : World B S)
      → HasCsrs L w.store
      → IsKept i w.store (dispatch P B S csr_attrs_der r w)
  unfolding dispatch handle_ca_certs handle_csr_attrs http_error
  dispatch-IsKept i r w h = go (route r.method r.path) refl
    where
      go :
          (t : Route)
          → route r.method r.path ≡ t
          → IsKept i w.store (dispatch P B S csr_attrs_der r w)
      go Route.ca_certs e =
          same_store i w (dispatch P B S csr_attrs_der r w) h (ground (arith, e))
            (rw (e, dispatch) (λ asked good. absurd (ground (arith, e, asked))))
      go Route.simple_enroll e =
          rw (e, dispatch) (same_store i w _ h refl (begin_enroll-IsSound r w.store i e))
      go Route.simple_reenroll e =
          rw (e, dispatch) (same_store i w _ h refl (begin_reenroll-IsSound r w.store i))
      go Route.csr_attrs e =
          same_store i w (dispatch P B S csr_attrs_der r w) h (ground (arith, e))
            (rw (e, dispatch) (λ asked good. absurd (ground (arith, e, asked))))
      go Route.method_not_allowed e =
          rw (e, dispatch) (same_store i w _ h refl (λ _ bad. ground (arith, bad)))
      go Route.not_found e =
          rw (e, dispatch) (same_store i w _ h refl (λ _ bad. ground (arith, bad)))

  issue_call-IsKept :
      (i : ℕ) (r : Request) (csr : CertificateRequest) (peer : Certificate) (w : World B S)
      → HasCsrs L w.store
      → IsAllowed P B L owner r csr
      → IssuesOwn P B L owner i (Phase.issuing r csr peer) w
      → IsKept i w.store (issue_call P B S csr_attrs_der r csr peer w)
  unfolding issue_call http_error internal_error
  issue_call-IsKept i r csr peer w h allowed own =
      elim (Result-cases (B.issue_certificate csr w.ca).0) [
        | inl (cert, e) ↦
            let issued : IsIssued P B L owner i r csr cert = record {
              allowed = allowed;
              state = w.ca;
              issued = e;
              owned = own cert e;
            } in
            rw (e, issue_call) (same_store i w _ h refl issued)
        | inr (x, e) ↦ elim (Bool-cases (is_invalid_csr_signature x)) [
          | inl f ↦ rw (e, f, issue_call) (same_store i w _ h refl (λ _ bad. ground (arith, bad)))
          | inr f ↦ rw (e, f, issue_call) (same_store i w _ h refl (λ _ bad. ground (arith, bad)))
        ]
      ]

  put_csr_call-IsKept :
      (i : ℕ) (r : Request) (csr : CertificateRequest) (cert : Certificate) (meta : Metadata)
      (w : World B S)
      → HasCsrs L w.store
      → IsIssued P B L owner i r csr cert
      → IsKept i w.store (put_csr_call P B S csr_attrs_der r csr cert meta w)
  unfolding put_csr_call internal_error http_error
  put_csr_call-IsKept i r csr cert meta w h issued =
      let n = cert.serial_number in
      let others =
        λ (j : ℕ) (ne : i ≢ j). put_csr-Keeps i j n csr.raw meta w.store issued.owned ne in
      let csrs = put_csr-HasCsrs L n csr.raw meta w.store h in
      elim (Result-cases (S.put_csr n csr.raw meta w.store).0) [
        | inl (_, e) ↦
            rw (e, put_csr_call)
              (record {
                others = others;
                csrs = csrs;
                sound = (csr, issued, L.csr-put_csr n csr.raw meta w.store e);
              })
        | inr (x, e) ↦
            rw (e, put_csr_call)
              (record { others = others; csrs = csrs; sound = λ _ bad. ground (arith, bad) })
      ]

  put_certificate_call-IsKept :
      (i : ℕ) (r : Request) (csr : CertificateRequest) (cert : Certificate) (meta : Metadata)
      (w : World B S)
      → HasCsrs L w.store
      → IsIssued P B L owner i r csr cert
      → StoresCsr P B L owner w.store csr cert
      → IsKept i w.store (put_certificate_call P B S csr_attrs_der r cert meta w)
  unfolding put_certificate_call internal_error http_error
  put_certificate_call-IsKept i r csr cert meta w h issued own =
      let n = cert.serial_number in
      let others =
        λ (j : ℕ) (ne : i ≢ j). put_certificate-Keeps i j n cert.raw meta w.store issued.owned ne in
      let csrs = put_certificate-HasCsrs L n cert.raw meta w.store h (ground (arith, own)) in
      elim (Result-cases (S.put_certificate n cert.raw meta w.store).0) [
        | inl (_, e) ↦
            rw (e, put_certificate_call)
              (record {
                others = others;
                csrs = csrs;
                sound = (
                  csr,
                  issued,
                  L.csr-put_certificate n cert.raw meta w.store n ∙ own,
                  L.certificate-put_certificate n cert.raw meta w.store e,
                );
              })
        | inr (x, e) ↦
            rw (e, put_certificate_call)
              (record { others = others; csrs = csrs; sound = λ _ bad. ground (arith, bad) })
      ]

  encoding-IsKept :
      (i : ℕ) (r : Request) (cert : Certificate) (w : World B S)
      → HasCsrs L w.store
      → Sound w.store i (Phase.encoding r cert)
      → IsKept i w.store (advance P B S csr_attrs_der (Phase.encoding r cert) w)
  unfolding advance respond_with internal_error http_error
  encoding-IsKept i r cert w h (csr, issued, own, stored) =
      elim (Result-cases (encode_certs_only P.cryptobyte (some cert ∷ []))) [
        | inl (der, e) ↦
            rw (e, respond_with)
              (same_store i w _ h refl (λ _ good. record {
                csr = csr;
                cert = cert;
                issued = issued;
                stored_csr = own;
                stored = stored;
                der = der;
                encoded = e;
                response = refl;
              }))
        | inr (x, e) ↦ rw (e, respond_with) (same_store i w _ h refl (λ _ bad. ground (arith, bad)))
      ]

  pub advance-IsKept :
      (i : ℕ) (p : Phase) (w : World B S)
      → HasCsrs L w.store
      → Sound w.store i p
      → IssuesOwn P B L owner i p w
      → IsKept i w.store (advance P B S csr_attrs_der p w)
  unfolding advance
  advance-IsKept i Phase.waiting w h sound own = same_store i w _ h refl tt
  advance-IsKept i (Phase.arrived r) w h sound own = dispatch-IsKept i r w h
  advance-IsKept i (Phase.issuing r csr peer) w h sound own =
      issue_call-IsKept i r csr peer w h sound own
  advance-IsKept i (Phase.putting_csr r csr cert meta) w h sound own =
      put_csr_call-IsKept i r csr cert meta w h sound
  advance-IsKept i (Phase.putting_certificate r cert meta) w h (csr, issued, stored) own =
      put_certificate_call-IsKept i r csr cert meta w h issued stored
  advance-IsKept i (Phase.encoding r cert) w h sound own = encoding-IsKept i r cert w h sound
  advance-IsKept i (Phase.answered r out) w h sound own = same_store i w _ h refl sound
