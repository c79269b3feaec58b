-- ===== src/Config/Complete.antt =====
-- `Validate` of internal/config/config.go accepts exactly the configurations that are ready once the
-- defaults are filled in.
use est.Common.{
  ◌≡◌, ◌≢◌, ◌↔◌, refl, sym, ap, subst, ◌∙◌, Bool, arith, pos, true, false, List, [], ◌∷◌, ◌++◌,
  none, some, Bytes, ascii, str_eq, str_eq_iff, is_empty, All, All-append, ok, Option-cases,
  Bool-cases, Result-cases, inl, inr, if◌then◌else◌,
}
use est.Config.{
  Config, OpenSslCaConfig, Host, is_backend, is_positive, check_required, default_backend,
  required_fields, required_ejbca_fields, default_openssl, check_common, local_files,
  openssl_section_files, openssl_files, ejbca_files, backend_files, check_files, server_files,
  validate,
}
use est.Config.Laws.{
  HasValue, IsLawful, IsReady, LocalReady, OpensslReady, EjbcaReady, BackendReady, Exists,
}
use est.Config.Validated.{validate-IsReady}
use est.Config.Defaults.{fill, with_defaults, fill_keeps, fill-ca_backend, with_defaults_idem}

check_required-ok : (l : List (Bytes × Bytes)) → All HasValue l → check_required l ≡ ok tt
unfolding check_required
check_required-ok [] h = refl
check_required-ok ((f, v) ∷ l) (here, h) = ground (arith, here, check_required-ok l h)

-- The tests of the `switch`, for each of the three names.
abbrev Tests : Bytes → Bool → Bool → Bool → Type 0
Tests name l o e =
    (str_eq name (ascii "local") ≡ l)
    × (str_eq name (ascii "openssl") ≡ o)
    × (str_eq name (ascii "ejbca") ≡ e)

local-Tests : (name : Bytes) → name ≡ ascii "local" → Tests name true false false
unfolding ascii str_eq
local-Tests name e = subst (λ n. Tests n true false false) (sym e) (refl, refl, refl)

openssl-Tests : (name : Bytes) → name ≡ ascii "openssl" → Tests name false true false
unfolding ascii str_eq
openssl-Tests name e = subst (λ n. Tests n false true false) (sym e) (refl, refl, refl)

ejbca-Tests : (name : Bytes) → name ≡ ascii "ejbca" → Tests name false false true
unfolding ascii str_eq
ejbca-Tests name e = subst (λ n. Tests n false false true) (sym e) (refl, refl, refl)

-- A range over a map visits nothing but its entries.
pub record IsComplete (H : Host) : Type 1 where
  pub range-All_only :
      (P : Bytes × Bytes → Type 0) (l : List (Bytes × Bytes)) → All P l → All P (H.range l)

module _ (H : Host) where
  check_files-ok : (l : List Bytes) → All (Exists H) l → check_files H l ≡ ok tt
  unfolding check_files
  check_files-ok [] h = refl
  check_files-ok (f ∷ l) (here, h) = ground (arith, here, check_files-ok l h)

  -- What the `switch` must give for the whole check to succeed.
  record BackendAccepts (c : Config) : Type 0 where
    pub known : is_backend c.ca_backend ≡ true
    pub more : List Bytes
    pub files : backend_files H c ≡ (ok more, fill c)
    pub exist : All (Exists H) more

  local-BackendAccepts : (c : Config) → LocalReady H (fill c) → BackendAccepts c
  unfolding backend_files local_files is_backend
  local-BackendAccepts c ready =
      let (l, o, e) = local-Tests c.ca_backend (sym (fill-ca_backend c) ∙ ready.backend) in
      let same : fill c ≡ c = ground (arith, o) in
      let h = subst (LocalReady H) same ready in
      record {
        known = ground (arith, l);
        more = c.ca_cert_file ∷ c.ca_key_file ∷ [];
        files = ground (arith, l, o, h.cert, h.key);
        exist = h.files;
      }

  openssl_section-BackendAccepts :
      (c : Config) (section : OpenSslCaConfig)
      → c.openssl_ca ≡ some section
      → OpensslReady H (record c { openssl_ca = some (default_openssl section) })
      → BackendAccepts c
  unfolding backend_files openssl_files openssl_section_files is_backend default_openssl
  openssl_section-BackendAccepts c section present h =
      let (l, o, e) = openssl-Tests c.ca_backend h.backend in
      let is : h.section ≡ default_openssl section = ground (arith, h.configured) in
      let config_file : section.config_file ≢ [] = (rw is at h.config_file) in
      let binary : H.look_path (default_openssl section).openssl_path ≡ none = rw is at h.binary in
      record {
        known = ground (arith, l, o);
        more = c.ca_cert_file ∷ section.config_file ∷ [];
        files = ground (arith, l, o, h.cert, present, config_file, binary);
        exist = rw is at h.files;
      }

  openssl-BackendAccepts : (c : Config) → OpensslReady H (fill c) → BackendAccepts c
  openssl-BackendAccepts c ready =
      let (l, o, e) = openssl-Tests c.ca_backend (sym (fill-ca_backend c) ∙ ready.backend) in
      elim (Option-cases c.openssl_ca) [
        | inl absent ↦ absurd (ground (arith, o, absent, ready.configured))
        | inr (section, present) ↦
            let same : fill c ≡ record c { openssl_ca = some (default_openssl section) } =
              ground (arith, o, present) in
            openssl_section-BackendAccepts c section present (subst (OpensslReady H) same ready)
      ]

  module _ (R : IsComplete H) where
    ejbca_section-BackendAccepts : (c : Config) → fill c ≡ c → EjbcaReady H c → BackendAccepts c
    unfolding backend_files ejbca_files is_backend
    ejbca_section-BackendAccepts c same h =
        let (l, o, e) = ejbca-Tests c.ca_backend h.backend in
        let s = h.section in
        let more =
          s.client_cert_file
          ∷ s.client_key_file
          ∷ (if is_empty s.server_ca_file then [] else s.server_ca_file ∷ []) in
        let required : check_required (H.range (required_ejbca_fields s)) ≡ ok tt =
          check_required-ok (H.range (required_ejbca_fields s))
            (R.range-All_only HasValue (required_ejbca_fields s) h.fields) in
        let files : backend_files H c ≡ (ok more, c) =
          rw (l, o, e, h.configured, required, backend_files, ejbca_files) refl in
        let (cert, (key, _)) = h.files in
        record {
          known = ground (arith, l, o, e);
          more = more;
          files = rw same files;
          exist = elim (Bool-cases (is_empty s.server_ca_file)) [
            | inl unset ↦ rw unset (cert, (key, tt))
            | inr set ↦ rw set (cert, (key, (h.server_ca (ground (arith, set)), tt)))
          ];
        }

    ejbca-BackendAccepts : (c : Config) → EjbcaReady H (fill c) → BackendAccepts c
    ejbca-BackendAccepts c ready =
        let (l, o, e) = ejbca-Tests c.ca_backend (sym (fill-ca_backend c) ∙ ready.backend) in
        let same : fill c ≡ c = ground (arith, o) in
        ejbca_section-BackendAccepts c same (subst (EjbcaReady H) same ready)

    backend-BackendAccepts : (c : Config) → BackendReady H (fill c) → BackendAccepts c
    backend-BackendAccepts c (inl l) = local-BackendAccepts c l
    backend-BackendAccepts c (inr (inl o)) = openssl-BackendAccepts c o
    backend-BackendAccepts c (inr (inr e)) = ejbca-BackendAccepts c e

    check_common-ok :
        (c : Config)
        → IsReady H (fill c)
        → is_backend c.ca_backend ≡ true
        → check_common H c ≡ ok tt
    unfolding check_common is_positive
    check_common-ok c ready known =
        let (o, kept) = fill_keeps c in
        let fields : All HasValue (required_fields c) = rw kept at ready.fields in
        let client_cas : c.client_ca_files ≢ [] = rw kept at ready.client_cas in
        let (n, validity, positive) = ready.validity in
        let valid : c.cert_validity ≡ pos n = rw kept at validity in
        let required : check_required (H.range (required_fields c)) ≡ ok tt =
          check_required-ok (H.range (required_fields c))
            (R.range-All_only HasValue (required_fields c) fields) in
        let test : is_positive c.cert_validity ≡ true = rw valid (ground (arith, positive)) in
        ground (arith, known, required, client_cas, test)

    server_files-All : (c : Config) → IsReady H (fill c) → All (Exists H) (server_files H c)
    server_files-All c ready = let (o, kept) = fill_keeps c in rw kept at ready.files

    -- A configuration that is ready with its defaults is accepted, and left with them.
    validate-ok :
        (c : Config) → IsReady H (with_defaults c) → validate H c ≡ (ok tt, with_defaults c)
    unfolding validate
    validate-ok c0 ready =
        let c = default_backend c0 in
        let b = backend-BackendAccepts c ready.backend in
        let common = check_common-ok c ready b.known in
        let exist =
          All-append (Exists H) (server_files H c) b.more (server_files-All c ready) b.exist in
        let files : check_files H (server_files H c ++ b.more) ≡ ok tt =
          check_files-ok (server_files H c ++ b.more) exist in
        rw (common, b.files, files, validate) (ap (λ p. (ok tt, p.1)) b.files)

    backend_files-fill :
        (c : Config) {more : List Bytes}
        → (backend_files H c).0 ≡ ok more
        → (backend_files H c).1 ≡ fill c
    unfolding backend_files openssl_files openssl_section_files
    backend_files-fill c h = elim (Bool-cases (str_eq c.ca_backend (ascii "openssl"))) [
      | inr e ↦ ground (arith, e)
      | inl e ↦ elim (Bool-cases (str_eq c.ca_backend (ascii "local"))) [
        | inl l ↦
            let (l', _, _) =
              openssl-Tests c.ca_backend ((str_eq_iff c.ca_backend (ascii "openssl")).0 e) in
            cc (l, l')
        | inr l ↦ elim (Option-cases c.openssl_ca) [
          | inl absent ↦ ground (arith, e, l, h, absent)
          | inr (o, present) ↦ ground (arith, e, l, h, present)
        ]
      ]
    ]

    validate-with_defaults :
        (c : Config) → (validate H c).0 ≡ ok tt → (validate H c).1 ≡ with_defaults c
    unfolding validate
    validate-with_defaults c0 h =
        let c = default_backend c0 in
        elim (Result-cases (check_common H c)) [
          | inr (x, bad) ↦ absurd (ground (arith, h, bad))
          | inl (_, common) ↦ elim (Result-cases (backend_files H c).0) [
            | inr (x, bad) ↦ absurd (ground (arith, h, common, bad))
            | inl (more, files) ↦ ground (arith, common, files, backend_files-fill c files)
          ]
        ]

    pub validate_iff :
        IsLawful H → (c : Config) → ((validate H c).0 ≡ ok tt) ↔ IsReady H (with_defaults c)
    validate_iff L c = (
      λ h. subst (IsReady H) (validate-with_defaults c h) (validate-IsReady L c h),
      λ ready. ap (λ p. p.0) (validate-ok c ready),
    )

    -- Given that a range over a map visits exactly its entries, what `Validate` has accepted and filled
    -- in, it accepts again and leaves as it is.
    pub validate_idem :
        IsLawful H
        → (c : Config) → (validate H c).0 ≡ ok tt
        → validate H (validate H c).1 ≡ (ok tt, (validate H c).1)
    validate_idem L c h =
        let left = validate-with_defaults c h in
        let ready = (validate_iff L c).0 h in
        let again = validate-ok (with_defaults c) (rw (with_defaults_idem c) ready) in
        rw left (again ∙ ap (λ d. (ok tt, d)) (with_defaults_idem c))
