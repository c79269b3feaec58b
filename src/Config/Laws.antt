-- ===== src/Config/Laws.antt =====
-- What a configuration that `Validate` accepts holds, and that it is accepted again.
use est.Common.{
  ℕ, ◌<◌, ◌≡◌, ◌≢◌, ◌⊎◌, refl, sym, subst, arith, ℤ, pos, negsuc, true, List, [], ◌∷◌, none, some,
  Bytes, ascii, str_eq, str_eq_iff, is_empty, All, ok, Option-cases, Bool-cases, inl, inr,
  if◌then◌else◌,
}
use est.Config.{
  Config, OpenSslCaConfig, EjbcaCaConfig, Host, is_backend, is_positive, check_required,
  required_fields, required_ejbca_fields, default_openssl, check_common, local_files,
  openssl_section_files, openssl_files, ejbca_files, backend_files, check_files, server_files,
}

abbrev pub HasValue : Bytes × Bytes → Type 0
HasValue entry = entry.1 ≢ []

-- A range over a map visits every entry.
pub record IsLawful (H : Host) : Type 1 where
  pub range-All :
      (P : Bytes × Bytes → Type 0) (l : List (Bytes × Bytes)) → All P (H.range l) → All P l

check_required-All : (l : List (Bytes × Bytes)) → check_required l ≡ ok tt → All HasValue l
unfolding check_required
check_required-All [] h = tt
check_required-All ((f, v) ∷ l) h = (ground (arith, h), check_required-All l (ground (arith, h)))

is_positive_lem : (z : ℤ) → is_positive z ≡ true → (n : ℕ) × (z ≡ pos n) × (0 < n)
unfolding is_positive
is_positive_lem (pos n) h = (n, refl, ground (arith, h))
is_positive_lem (negsuc n) h = cc

default_openssl-extensions : (o : OpenSslCaConfig) → (default_openssl o).extensions_section ≢ []
unfolding default_openssl ascii
default_openssl-extensions o = ground arith

module _ (H : Host) where
  abbrev pub Exists : Bytes → Type 0
  Exists f = H.stat f ≡ none

  pub check_files-All : (l : List Bytes) → check_files H l ≡ ok tt → All Exists l
  unfolding check_files
  check_files-All [] h = tt
  check_files-All (f ∷ l) h = elim (Option-cases (H.stat f)) [
    | inl e ↦ (e, check_files-All l (ground (arith, e, h)))
    | inr (x, e) ↦ absurd (ground (arith, e, h))
  ]

  -- What the local backend needs.
  pub record LocalReady (c : Config) : Type 0 where
    pub backend : c.ca_backend ≡ ascii "local"
    pub cert : c.ca_cert_file ≢ []
    pub key : c.ca_key_file ≢ []
    pub files : All Exists (c.ca_cert_file ∷ c.ca_key_file ∷ [])

  -- What the openssl backend needs, with its defaults filled in.
  pub record OpensslReady (c : Config) : Type 0 where
    pub backend : c.ca_backend ≡ ascii "openssl"
    pub cert : c.ca_cert_file ≢ []
    pub section : OpenSslCaConfig
    pub configured : c.openssl_ca ≡ some section
    pub config_file : section.config_file ≢ []
    pub binary : H.look_path section.openssl_path ≡ none
    pub extensions : section.extensions_section ≢ []
    pub files : All Exists (c.ca_cert_file ∷ section.config_file ∷ [])

  -- What the EJBCA backend needs.
  pub record EjbcaReady (c : Config) : Type 0 where
    pub backend : c.ca_backend ≡ ascii "ejbca"
    pub section : EjbcaCaConfig
    pub configured : c.ejbca_ca ≡ some section
    pub fields : All HasValue (required_ejbca_fields section)
    pub files : All Exists (section.client_cert_file ∷ section.client_key_file ∷ [])
    pub server_ca : section.server_ca_file ≢ [] → Exists section.server_ca_file

  abbrev pub BackendReady : Config → Type 0
  BackendReady c = LocalReady c ⊎ (OpensslReady c ⊎ EjbcaReady c)

  pub record IsReady (c : Config) : Type 0 where
    pub fields : All HasValue (required_fields c)
    pub client_cas : c.client_ca_files ≢ []
    pub validity : (n : ℕ) × (c.cert_validity ≡ pos n) × (0 < n)
    pub files : All Exists (server_files H c)
    pub backend : BackendReady c

  -- What the checks before the `switch` give.
  pub record CommonReady (c : Config) : Type 0 where
    pub fields : All HasValue (required_fields c)
    pub client_cas : c.client_ca_files ≢ []
    pub validity : (n : ℕ) × (c.cert_validity ≡ pos n) × (0 < n)
    pub backend : is_backend c.ca_backend ≡ true

  module _ (L : IsLawful H) where
    pub check_common-CommonReady : (c : Config) → check_common H c ≡ ok tt → CommonReady c
    unfolding check_common
    check_common-CommonReady c h =
        let required = check_required (H.range (required_fields c)) in
        record {
          fields =
              L.range-All HasValue (required_fields c)
                (check_required-All (H.range (required_fields c)) (ground (arith, h)));
          client_cas = ground (arith, h);
          validity = is_positive_lem c.cert_validity (ground (arith, h));
          backend = ground (arith, h);
        }

    local_files-LocalReady :
        (c : Config) {more : List Bytes}
        → local_files H c ≡ ok more
        → All Exists more
        → c.ca_backend ≡ ascii "local"
        → LocalReady c
    unfolding local_files
    local_files-LocalReady c {more} h files e = record {
      backend = e;
      cert = ground (arith, h);
      key = ground (arith, h);
      files =
          let whole : more ≡ c.ca_cert_file ∷ c.ca_key_file ∷ [] = ground (arith, h) in
          subst (All Exists) whole files;
    }

    openssl_files-OpensslReady :
        (c : Config) {more : List Bytes}
        → (openssl_files H c).0 ≡ ok more
        → All Exists more
        → c.ca_backend ≡ ascii "openssl"
        → OpensslReady (openssl_files H c).1
    unfolding openssl_files openssl_section_files default_openssl
    openssl_files-OpensslReady c {more} h files e = elim (Bool-cases (is_empty c.ca_cert_file)) [
      | inl no_cert ↦ absurd (ground (arith, h, no_cert))
      | inr cert ↦ elim (Option-cases c.openssl_ca) [
        | inl absent ↦ absurd (ground (arith, h, cert, absent))
        | inr (o, present) ↦ elim (Bool-cases (is_empty o.config_file)) [
          | inl no_config ↦ absurd (ground (arith, h, cert, present, no_config))
          | inr config ↦
              let o' = default_openssl o in
              let c' : Config = record c { openssl_ca = some o' } in
              elim (Option-cases (H.look_path o'.openssl_path)) [
                | inr (x, missing) ↦ absurd (ground (arith, h, cert, present, config, missing))
                | inl found ↦
                    let left : (openssl_files H c).1 ≡ c' =
                      ground (arith, cert, present, config, found) in
                    let whole : more ≡ c.ca_cert_file ∷ o.config_file ∷ [] =
                      ground (arith, h, cert, present, config, found) in
                    subst OpensslReady (sym left) (record {
                      backend = e;
                      cert = ground (arith, cert);
                      section = o';
                      configured = refl;
                      config_file = ground (arith, config);
                      binary = found;
                      extensions = default_openssl-extensions o;
                      files = subst (All Exists) whole files;
                    })
              ]
        ]
      ]
    ]

    ejbca_files-EjbcaReady :
        (c : Config) {more : List Bytes}
        → ejbca_files H c ≡ ok more
        → All Exists more
        → c.ca_backend ≡ ascii "ejbca"
        → EjbcaReady c
    unfolding ejbca_files
    ejbca_files-EjbcaReady c {more} h files e = elim (Option-cases c.ejbca_ca) [
      | inl absent ↦ absurd (ground (arith, h, absent))
      | inr (s, present) ↦
          let whole : more
              ≡ s.client_cert_file
                ∷ s.client_key_file
                ∷ (if is_empty s.server_ca_file then [] else s.server_ca_file ∷ []) =
            ground (arith, h, present) in
          let (cert, (key, server)) = subst (All Exists) whole files in
          record {
            backend = e;
            section = s;
            configured = present;
            fields = L.range-All HasValue (required_ejbca_fields s) (
                check_required-All (H.range (required_ejbca_fields s))
                  (ground (arith, h, present)));
            files = (cert, (key, tt));
            server_ca = λ set. elim (Bool-cases (is_empty s.server_ca_file)) [
              | inl unset ↦ absurd (ground (arith, set, unset))
              | inr e ↦ (rw e at server).0
            ];
          }
    ]

    pub backend_files-BackendReady :
        (c : Config) {more : List Bytes}
        → (backend_files H c).0 ≡ ok more
        → All Exists more
        → is_backend c.ca_backend ≡ true
        → BackendReady (backend_files H c).1
    unfolding backend_files is_backend
    backend_files-BackendReady c h files known =
        let name = c.ca_backend in
        elim (Bool-cases (str_eq name (ascii "local"))) [
          | inl e ↦
              rw (e, backend_files)
                (inl (local_files-LocalReady c (ground (arith, h, e)) files ((str_eq_iff _ _).0 e)))
          | inr e ↦ elim (Bool-cases (str_eq name (ascii "openssl"))) [
            | inl f ↦
                rw (e, f, backend_files)
                  (inr (
                    inl (
                      openssl_files-OpensslReady c (ground (arith, h, e, f)) files
                        ((str_eq_iff _ _).0 f))))
            | inr f ↦ elim (Bool-cases (str_eq name (ascii "ejbca"))) [
              | inl g ↦
                  rw (e, f, g, backend_files)
                    (inr (
                      inr (
                        ejbca_files-EjbcaReady c (ground (arith, h, e, f, g)) files
                          ((str_eq_iff _ _).0 g))))
              | inr g ↦ absurd (ground (arith, known, e, f, g))
            ]
          ]
        ]
