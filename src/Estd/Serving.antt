-- ===== src/Estd/Serving.antt =====
-- Whose requests a server that was started by `run` of cmd/estd/main.go may let change the store, and
-- what it answers to `GET /csrattrs`.
use est.Common.{err, ◌≡◌, ◌≢◌, List, [], ◌∷◌, some, Bytes, ok, subst}
use est.X509.{Certificate}
use est.Cryptobyte
use est.Store.FileStore.Lawful.{file_store-IsLawful}
use est.Estd.Handler.{Libraries, ca_backend_of, ServerWorld, handle}
use est.Config.{Config}
use est.Config.Laws.{IsLawful}
use est.Estapi.Identity.{peer_certificate, no_peer_certificate}
use est.Estapi.Server.{Request}
use est.Estapi.Server.Stored.{serve-store_without_peer}
use est.Estapi.Tls.{ClientAuth, TlsConfig}
use est.Estapi.Tls.Laws.{pool_of}
use est.Estd
use est.Estd.Started.{start-IsStarted}

-- `Accepts cfg certs` is a handshake under the configuration in which the client gave the
-- certificates, `Verifies roots certs` that their chain leads to one of the roots. The hypothesis is
-- what `crypto/tls` documents of `VerifyClientCertIfGiven`.
module _ (D : Estd.Platform) (H : IsLawful D.host)
    (Accepts : TlsConfig D.tls → List Certificate → Type 0)
    (Verifies : List Certificate → List Certificate → Type 0)
    (verified_if_given : (cfg : TlsConfig D.tls) (c : Certificate) (cs : List Certificate)
      → cfg.client_auth ≡ ClientAuth.verify_client_cert_if_given
      → Accepts cfg (c ∷ cs)
      → Verifies cfg.client_cas (c ∷ cs)) where
  -- Given that a range over a map visits every entry, and that `crypto/tls` verifies a certificate
  -- that is given under `VerifyClientCertIfGiven` as it documents: a request that changes the store
  -- of a server that was started came over a connection on which the client gave a certificate
  -- whose chain leads to a certificate in the client CA files of the configuration.
  pub handle-Verifies :
      (A : Libraries) (path : Bytes) {s : Estd.Server D}
      → Estd.start D path ≡ some (ok s)
      → (r : Request) (w : ServerWorld D A s) (certs : List Certificate) → r.tls ≡ some certs
      → Accepts s.tls_config certs
      → (handle D A s r w).1.store ≢ w.store
      → (c : Config) × (Estd.load_valid D path ≡ ok c)
        × Verifies (pool_of D.tls c.client_ca_files) certs
  unfolding peer_certificate handle
  handle-Verifies A path {s} started r w [] given accepted changed =
      let nobody : peer_certificate r.tls ≡ err no_peer_certificate =
        rw (given, peer_certificate) in
      let B = ca_backend_of D A s.backend in
      let L = file_store-IsLawful A.parse_certificate A.marshal_indent s.file_store in
      absurd (changed (serve-store_without_peer A.endpoints B L s.csr_attrs_der r w nobody))
  handle-Verifies A path {s} started r w (x ∷ xs) given accepted changed =
      let (c, loaded, is) = start-IsStarted D H path s started in
      (
        c,
        loaded,
        subst (λ roots. Verifies roots (x ∷ xs)) is.strict.client_cas
            (verified_if_given s.tls_config x xs is.strict.client_auth accepted),
      )
