-- ===== src/Config/Validated.antt =====
-- What `Validate` guarantees to the rest of the server.
use est.Common.{
  ◌≡◌, sym, subst, arith, Result-cases, inl, inr, ◌++◌, Option, All-front, All-back, ok,
}
use est.Config.{
  Config, OpenSslCaConfig, Host, default_backend, check_common, openssl_section_files,
  openssl_files, backend_files, check_files, server_files, validate,
}
use est.Config.Laws.{
  IsLawful, IsReady, Exists, check_files-All, check_common-CommonReady, backend_files-BackendReady,
}

module _ {H : Host} (L : IsLawful H) where
  -- The `switch` changes the section of openssl alone.
  backend_files_keeps :
      (c : Config)
      → (o : Option OpenSslCaConfig) × ((backend_files H c).1 ≡ record c { openssl_ca = o })
  unfolding backend_files openssl_files openssl_section_files
  backend_files_keeps c = ((backend_files H c).1.openssl_ca, ground arith)

  -- A configuration that `Validate` accepts is left complete: the required fields are set, there is a
  -- client CA file, the validity is positive, the backend is one of the three and has what it needs
  -- with the defaults filled in, the openssl binary is found, and every file that is named exists.
  pub validate-IsReady : (c : Config) → (validate H c).0 ≡ ok tt → IsReady H (validate H c).1
  unfolding validate
  validate-IsReady c0 h =
      let c = default_backend c0 in
      elim (Result-cases (check_common H c)) [
        | inr (x, bad) ↦ absurd (ground (arith, h, bad))
        | inl (_, common) ↦ elim (Result-cases (backend_files H c).0) [
          | inr (x, bad) ↦ absurd (ground (arith, h, common, bad))
          | inl (more, files) ↦
              let ready = check_common-CommonReady H L c common in
              let (o, kept) = backend_files_keeps c in
              let left : (validate H c0).1 ≡ (backend_files H c).1 =
                ground (arith, common, files) in
              let checked : check_files H (server_files H c ++ more) ≡ ok tt =
                ground (arith, h, common, files) in
              let all = check_files-All H (server_files H c ++ more) checked in
              let backend =
                backend_files-BackendReady H L c files
                  (All-back (Exists H) (server_files H c) more all) ready.backend in
              subst (IsReady H) (sym left) (record {
                fields = rw kept ready.fields;
                client_cas = rw kept ready.client_cas;
                validity = rw kept ready.validity;
                files = rw kept (All-front (Exists H) (server_files H c) more all);
                backend = backend;
              })
        ]
      ]
