-- ===== src/Estd/Started.antt =====
-- What a server is made of that `run` of cmd/estd/main.go starts, and whom it serves.
use est.Common.{
  ◌≡◌, refl, sym, subst, arith, some, Bytes, Result, ok, err, Option-cases, Result-cases, inl, inr,
  >>=-eq-ok, ◌>>=◌,
}
use est.Config.{Config, validate}
use est.Config.Laws.{IsLawful, IsReady}
use est.Config.Validated.{validate-IsReady}
use est.Config.Load.{load}
use est.Config.Attrs.{csr_attrs_options}
use est.CsrAttrs.Encode.{encode_csr_attrs}
use est.Store.FileStore.{new_file_store}
use est.Estapi.Tls.{build_tls_config}
use est.Estapi.Tls.Laws.{IsStrict, build_tls_config-IsStrict}
use est.Estd.{Platform, Backend, Server, load_valid, assemble, start}
use est.Estd.Chosen.{IsChosen, choose_backend-IsReady}

module _ (P : Platform) where
  -- What a server holds that was started with a configuration.
  pub record IsStarted (c : Config) (s : Server P) : Type 0 where
    pub ready : IsReady P.host c
    pub chosen : IsChosen P c s.backend
    pub strict : IsStrict P.tls c.server_cert_file c.server_key_file c.client_ca_files s.tls_config
    pub listen_addr : s.listen_addr ≡ c.listen_addr
    pub stored : s.file_store.dir ≡ c.store_dir
    pub csr_attrs :
        encode_csr_attrs P.cryptobyte P.marshal (csr_attrs_options c.csr_attrs) ≡ ok s.csr_attrs_der

  assemble_lem :
      (c : Config) (b : Backend P) {s : Server P}
      → assemble P c b ≡ ok s
      → (s.backend ≡ b)
        × IsStrict P.tls c.server_cert_file c.server_key_file c.client_ca_files s.tls_config
        × (s.listen_addr ≡ c.listen_addr)
        × (s.file_store.dir ≡ c.store_dir)
        × (encode_csr_attrs P.cryptobyte P.marshal (csr_attrs_options c.csr_attrs)
            ≡ ok s.csr_attrs_der)
  unfolding assemble new_file_store
  assemble_lem c b {s} h =
      let (fs, made, rest) = >>=-eq-ok (new_file_store (P.mkdir_all c.store_dir) c.store_dir) _ h in
      let (tls, built, rest) =
        >>=-eq-ok (build_tls_config P.tls c.server_cert_file c.server_key_file c.client_ca_files) _
          rest in
      let (der, written, done) =
        >>=-eq-ok (encode_csr_attrs P.cryptobyte P.marshal (csr_attrs_options c.csr_attrs)) _
          rest in
      let strict =
        build_tls_config-IsStrict P.tls c.server_cert_file c.server_key_file c.client_ca_files
          built in
      let same : tls ≡ s.tls_config = ground (arith, done) in
      (
        ground (arith, done),
        subst (IsStrict P.tls c.server_cert_file c.server_key_file c.client_ca_files) same strict,
        ground (arith, done),
        elim (Option-cases (P.mkdir_all c.store_dir)) [
          | inl e ↦ ground (arith, done, made, e)
          | inr (x, e) ↦ absurd (ground (arith, made, e))
        ],
        ground (arith, done, written),
      )

  module _ (H : IsLawful P.host) where
    load_valid-IsReady : (path : Bytes) {c : Config} → load_valid P path ≡ ok c → IsReady P.host c
    unfolding load_valid
    load_valid-IsReady path h =
        let (cfg, _, checked) = >>=-eq-ok (load P.tls.read_file P.unmarshal path) _ h in
        let (r, left) = validate P.host cfg in
        elim (Result-cases r) [
          | inl (_, e) ↦
              subst (IsReady P.host) (ground (arith, checked, e)) (validate-IsReady H cfg e)
          | inr (x, e) ↦ absurd (ground (arith, checked, e))
        ]

    -- Start-up reads no nil pointer, and every server that starts was made of a configuration that was
    -- loaded from the file and accepted.
    pub start_lem :
        (path : Bytes)
        → (out : Result (Server P)) × (start P path ≡ some out)
          × ((s : Server P)
              → out ≡ ok s
              → (c : Config) × (load_valid P path ≡ ok c) × IsStarted c s)
    unfolding start
    start_lem path = elim (Result-cases (load_valid P path)) [
      | inr (x, e) ↦ (err x, rw (e, start) refl, λ s bad. cc)
      | inl (c, e) ↦
          let ready = load_valid-IsReady path e in
          let (chosen, made, is_chosen) = choose_backend-IsReady P c ready in
          (
            chosen >>= assemble P c,
            rw (e, made, start) refl,
            λ s h.
                let (b, is, rest) = >>=-eq-ok chosen (assemble P c) h in
                let (same, strict, addr, dir, attrs) = assemble_lem c b rest in
                (
                  c,
                  e,
                  record {
                    ready = ready;
                    chosen = subst (IsChosen P c) (sym same) (is_chosen b is);
                    strict = strict;
                    listen_addr = addr;
                    stored = dir;
                    csr_attrs = attrs;
                  },
                ),
          )
    ]

    pub start-IsStarted :
        (path : Bytes) (s : Server P)
        → start P path ≡ some (ok s)
        → (c : Config) × (load_valid P path ≡ ok c) × IsStarted c s
    start-IsStarted path s h =
        let (out, made, whole) = start_lem path in whole s (ground (arith, h, made))
