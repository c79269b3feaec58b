-- ===== src/Estd/Chosen.antt =====
-- The backend that `run` of cmd/estd/main.go chooses for a configuration.
use est.Common.{
  ◌≡◌, refl, subst, arith, some, ascii, str_eq, Result, ok, Result-cases, inl, inr, >>=-eq-ok,
  ◌>>=◌,
}
use est.X509.{Certificate}
use est.Ca.Local.{load_ca_key_pair, new_local_ca}
use est.Ca.Openssl.{load_ca_certificate}
use est.Ca.Ejbca.Client.{new_ejbca}
use est.Config.{Config, OpenSslCaConfig, EjbcaCaConfig}
use est.Config.Laws.{IsReady}
use est.Estd.{Platform, ejbca_options, Backend, local_of, openssl_of, ejbca_of, choose_backend}

module _ (P : Platform) where
  -- The backend that a configuration asks for, from the files that it names.
  abbrev pub IsChosen : Config → Backend P → Type 0
  IsChosen c (Backend.local ca) =
      (c.ca_backend ≡ ascii "local")
      × (cert : Certificate) × (key : P.crypto.PrivateKey) × (load_ca_key_pair P.crypto
            (P.tls.read_file c.ca_cert_file) (P.tls.read_file c.ca_key_file)
          ≡ ok (cert, key))
      × (ca ≡ new_local_ca P.crypto cert key c.cert_validity)
  IsChosen c (Backend.openssl ca) =
      (c.ca_backend ≡ ascii "openssl")
      × (o : OpenSslCaConfig) × (cert : Certificate) × (c.openssl_ca ≡ some o)
      × (load_ca_certificate P.openssl (P.tls.read_file c.ca_cert_file) ≡ ok cert)
      × (Backend.openssl ca ≡ openssl_of P o cert)
  IsChosen c (Backend.ejbca client ca) =
      (c.ca_backend ≡ ascii "ejbca")
      × (e : EjbcaCaConfig) × (c.ejbca_ca ≡ some e)
      × (new_ejbca P.tls (ejbca_options e) ≡ ok (client, ca))

  choose_local :
      (c : Config) → c.ca_backend ≡ ascii "local" → choose_backend P c ≡ some (local_of P c)
  unfolding choose_backend str_eq ascii
  choose_local c e = rw e refl

  choose_openssl :
      (c : Config) {o : OpenSslCaConfig}
      → c.ca_backend ≡ ascii "openssl"
      → c.openssl_ca ≡ some o
      → choose_backend P c
        ≡ some (
            load_ca_certificate P.openssl (P.tls.read_file c.ca_cert_file) >>= λ cert.
            ok (openssl_of P o cert))
  unfolding choose_backend str_eq ascii
  choose_openssl c e f =
      elim (Result-cases (load_ca_certificate P.openssl (P.tls.read_file c.ca_cert_file))) [
        | inl (cert, loaded) ↦ rw (e, loaded, f) refl
        | inr (x, failed) ↦ rw (e, failed) refl
      ]

  choose_ejbca :
      (c : Config) {e : EjbcaCaConfig}
      → c.ca_backend ≡ ascii "ejbca"
      → c.ejbca_ca ≡ some e
      → choose_backend P c ≡ some (ejbca_of P e)
  unfolding choose_backend str_eq ascii
  choose_ejbca c h f = rw (h, f) refl

  local_of-IsChosen :
      (c : Config) (b : Backend P)
      → c.ca_backend ≡ ascii "local"
      → local_of P c ≡ ok b
      → IsChosen c b
  unfolding local_of
  local_of-IsChosen c b named h =
      let load =
        load_ca_key_pair P.crypto (P.tls.read_file c.ca_cert_file)
          (P.tls.read_file c.ca_key_file) in
      let ((cert, key), loaded, done) = >>=-eq-ok load _ h in
      let is : Backend.local (new_local_ca P.crypto cert key c.cert_validity) ≡ b =
        ground (arith, done) in
      subst (IsChosen c) is (named, cert, key, loaded, refl)

  ejbca_of-IsChosen :
      (c : Config) (b : Backend P) (e : EjbcaCaConfig)
      → c.ca_backend ≡ ascii "ejbca"
      → c.ejbca_ca ≡ some e
      → ejbca_of P e ≡ ok b
      → IsChosen c b
  unfolding ejbca_of
  ejbca_of-IsChosen c b e named configured h =
      let ((client, ca), made, done) = >>=-eq-ok (new_ejbca P.tls (ejbca_options e)) _ h in
      let is : Backend.ejbca client ca ≡ b = ground (arith, done) in
      subst (IsChosen c) is (named, e, configured, made)

  openssl_of-IsChosen :
      (c : Config) (b : Backend P) (o : OpenSslCaConfig)
      → c.ca_backend ≡ ascii "openssl"
      → c.openssl_ca ≡ some o
      → (load_ca_certificate P.openssl (P.tls.read_file c.ca_cert_file) >>= λ cert.
          ok (openssl_of P o cert))
        ≡ ok b
      → IsChosen c b
  unfolding openssl_of
  openssl_of-IsChosen c b o named configured h =
      let (cert, loaded, done) =
        >>=-eq-ok (load_ca_certificate P.openssl (P.tls.read_file c.ca_cert_file)) _ h in
      let is : openssl_of P o cert ≡ b = ground (arith, done) in
      subst (IsChosen c) is (named, o, cert, configured, loaded, refl)

  -- For a configuration that is ready, the `switch` reads no nil pointer, and it gives an error or the
  -- backend that the configuration names.
  pub choose_backend-IsReady :
      (c : Config)
      → IsReady P.host c
      → (chosen : Result (Backend P)) × (choose_backend P c ≡ some chosen)
        × ((b : Backend P) → chosen ≡ ok b → IsChosen c b)
  choose_backend-IsReady c ready = elim ready.backend [
    | inl l ↦ (_, choose_local c l.backend, λ b. local_of-IsChosen c b l.backend)
    | inr (inl o) ↦ (
      _,
      choose_openssl c o.backend o.configured,
      λ b. openssl_of-IsChosen c b o.section o.backend o.configured,
    )
    | inr (inr e) ↦ (
      _,
      choose_ejbca c e.backend e.configured,
      λ b. ejbca_of-IsChosen c b e.section e.backend e.configured,
    )
  ]
