-- ===== src/Ca/Local/Laws.antt =====
-- What `LocalCA` signs, and what it refuses.
use est.Common.{
  ◌≡◌, refl, sym, ◌∙◌, ap, arith, ℕ, ◌+◌, ◌*◌, ◌/◌, ◌<◌, ℤ, pos, negsuc, true, false, none, some,
  Bytes, ascii, Error, ok, context, >>=-eq-ok, context-eq-ok, Option-cases, Result-cases, inl, inr,
}
use est.X509.{Certificate, CertificateRequest, PublicKey, PublicKeyAlgorithm}
use est.Ca.{CaBackend, is_invalid_csr_signature}
use est.Ca.Serial.{SerialSource}
use est.Ca.Local.{
  Crypto, LocalCa, LocalState, key_usage_for, subject_key_id, certificate_template, sign,
  issue_certificate, ca_certificates,
}
use est.Store.{Store}
use est.Estapi.Encoding.{decode_csr_body}
use est.Estapi.Identity.{peer_certificate}
use est.Estapi.Server.{
  Platform, Request, World, http_error, issue_and_respond, handle_simple_enroll,
}

-- A certificate's times have no fractions of a second: the nanoseconds are cut off.
abbrev pub whole_seconds : ℤ → ℤ
whole_seconds (pos n) = pos (n / 1000000000 * 1000000000)
whole_seconds (negsuc n) = negsuc (n / 1000000000 * 1000000000 + 999999999)

-- The fields that a certificate takes over from its template, its times in whole seconds.
pub record HasFieldsOf (t cert : Certificate) : Type 0 where
  pub serial_number : cert.serial_number ≡ t.serial_number
  pub common_name : cert.subject.common_name ≡ t.subject.common_name
  pub dns_names : cert.dns_names ≡ t.dns_names
  pub email_addresses : cert.email_addresses ≡ t.email_addresses
  pub key_usage : cert.key_usage ≡ t.key_usage
  pub ext_key_usage : cert.ext_key_usage ≡ t.ext_key_usage
  pub basic_constraints_valid : cert.basic_constraints_valid ≡ t.basic_constraints_valid
  pub is_ca : cert.is_ca ≡ t.is_ca
  pub not_before : cert.not_before ≡ whole_seconds t.not_before
  pub not_after : cert.not_after ≡ whole_seconds t.not_after

-- `x509.CreateCertificate` writes the template's fields, and `x509.ParseCertificate` reads them. It
-- heeds `IsCA` only if `BasicConstraintsValid` holds, and a key usage has nine bits.
pub record IsLawful (X : Crypto) : Type 0 where
  pub created :
      (drawn : ℕ) (t parent : Certificate) (public_key : PublicKey) (key : X.PrivateKey)
      {der : Bytes} {cert : Certificate}
      → t.basic_constraints_valid ≡ true
      → t.key_usage < 512
      → X.create_certificate drawn t parent public_key key ≡ ok der
      → X.parse_certificate der ≡ ok cert
      → HasFieldsOf t cert

module _ {X : Crypto} (L : IsLawful X) (N : SerialSource) where
  -- The CSR proved possession of its key, and names, addresses and key alone come from it.
  pub record IsServerControlled (l : LocalCa X) (csr : CertificateRequest) (s : LocalState X N)
      (cert : Certificate) : Type 0 where
    pub verified : X.check_signature csr ≡ none
    pub serial : (N.next s.serials).0 ≡ ok cert.serial_number
    pub common_name : cert.subject.common_name ≡ csr.subject.common_name
    pub dns_names : cert.dns_names ≡ csr.dns_names
    pub email_addresses : cert.email_addresses ≡ csr.email_addresses
    pub key_usage : cert.key_usage ≡ key_usage_for csr.public_key_algorithm
    pub ext_key_usage : cert.ext_key_usage ≡ l.ext_key_usage
    pub basic_constraints_valid : cert.basic_constraints_valid ≡ true
    pub is_ca : cert.is_ca ≡ false

  key_usage_for-lt : (a : PublicKeyAlgorithm) → key_usage_for a < 512
  unfolding key_usage_for
  key_usage_for-lt PublicKeyAlgorithm.unknown = omega arith
  key_usage_for-lt PublicKeyAlgorithm.rsa = omega arith
  key_usage_for-lt PublicKeyAlgorithm.dsa = omega arith
  key_usage_for-lt PublicKeyAlgorithm.ecdsa = omega arith
  key_usage_for-lt PublicKeyAlgorithm.ed25519 = omega arith

  pub sign-HasFieldsOf :
      (l : LocalCa X) (csr : CertificateRequest) (serial now : ℤ) (drawn : ℕ) {cert : Certificate}
      → sign X l csr serial now drawn ≡ ok cert
      → (skid : Bytes) × HasFieldsOf (certificate_template X l csr serial skid now) cert
  unfolding sign certificate_template
  sign-HasFieldsOf l csr serial now drawn h =
      let key_id = ascii "ca: compute subject key id" in
      let create = ascii "ca: create certificate" in
      let parse = ascii "ca: parse issued certificate" in
      let (skid, _, rest) = >>=-eq-ok (context key_id (subject_key_id X csr.public_key)) _ h in
      let t = certificate_template X l csr serial skid now in
      let made = X.create_certificate drawn t l.cert csr.public_key l.key in
      let (der, c, p) =
        >>=-eq-ok (context create made) (λ der. context parse (X.parse_certificate der)) rest in
      (
        skid,
        L.created drawn t l.cert csr.public_key l.key refl
            (key_usage_for-lt csr.public_key_algorithm) (context-eq-ok create made c)
            (context-eq-ok parse (X.parse_certificate der) p),
      )

  -- A certificate that the local CA issues is for a CSR whose signature verifies, has the serial
  -- number that the source gave, the CSR's common name, DNS names and email addresses, and the
  -- server's key usages: it is never a CA certificate, whatever the CSR asks for.
  pub issue_certificate-IsServerControlled :
      (l : LocalCa X) (csr : CertificateRequest) (s : LocalState X N) {cert : Certificate}
      → (issue_certificate X N l csr s).0 ≡ ok cert
      → IsServerControlled l csr s cert
  unfolding issue_certificate certificate_template
  issue_certificate-IsServerControlled l csr s {cert} h =
      elim (Option-cases (X.check_signature csr)) [
        | inr (e, bad) ↦ absurd (ground (arith, h, bad))
        | inl good ↦
            let (serial, _) = N.next s.serials in
            elim (Result-cases serial) [
              | inr (e, bad) ↦ absurd (ground (arith, h, good, bad))
              | inl (n, drawn) ↦
                  let signed : sign X l csr n (s.clock (s.calls + 1)) (s.calls + 1) ≡ ok cert =
                    ground (arith, h, good, drawn) in
                  let (skid, fields) = sign-HasFieldsOf l csr n _ _ signed in
                  record {
                    verified = good;
                    serial = drawn ∙ ap ok (sym fields.serial_number);
                    common_name = fields.common_name;
                    dns_names = fields.dns_names;
                    email_addresses = fields.email_addresses;
                    key_usage = fields.key_usage;
                    ext_key_usage = fields.ext_key_usage;
                    basic_constraints_valid = fields.basic_constraints_valid;
                    is_ca = fields.is_ca;
                  }
            ]
      ]

module _ (X : Crypto) (N : SerialSource) (l : LocalCa X) where
  -- `LocalCA` as a `CABackend`.
  abbrev pub local_backend : CaBackend
  local_backend = record {
    State = LocalState X N;
    ca_certificates = ca_certificates X N l;
    issue_certificate = issue_certificate X N l;
  }

  -- With the local CA, an enrollment whose CSR is not signed by its own key is answered 400 and
  -- changes nothing: no serial number is drawn, nothing is stored and nothing is logged.
  pub handle_simple_enroll_bad_signature :
      (P : Platform) (S : Store) (r : Request) (w : World local_backend S) {peer : Certificate}
      {csr : CertificateRequest} {e : Error}
      → peer_certificate r.tls ≡ ok peer
      → decode_csr_body P.parse_certificate_request r.body ≡ ok csr
      → X.check_signature csr ≡ some e
      → handle_simple_enroll P local_backend S r w
        ≡ (http_error (ascii "CSR signature does not verify") 400, w)
  unfolding handle_simple_enroll issue_and_respond issue_certificate is_invalid_csr_signature
  handle_simple_enroll_bad_signature P S r w hp hc he = ground (arith, hp, hc, he)
