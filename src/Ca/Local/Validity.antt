-- ===== src/Ca/Local/Validity.antt =====
-- When a certificate of `LocalCA` is valid.
use est.Common.{
  ◌≡◌, arith, ℕ, ◌+◌, ◌-◌, ◌*◌, ◌/◌, ◌<◌, ◌≤◌, ℤ, pos, ◌+ℤ◌, negate, sub_nat, int_eq, Bytes, ok,
  Option-cases, Result-cases, inl, inr, ◌∙◌, ap,
}
use est.X509.{Certificate, CertificateRequest}
use est.Ca.Serial.{SerialSource}
use est.Ca.Local.{Crypto, LocalState, new_local_ca, certificate_template, sign, issue_certificate}
use est.Ca.Local.Laws.{IsLawful, whole_seconds, sign-HasFieldsOf}

-- The certificate is valid from five minutes before `now`, or less than a second earlier, until the
-- time `validity` after it, or less than a second earlier, and that is after `now`.
pub record IsValidAt (now validity : ℕ) (cert : Certificate) : Type 0 where
  pub from : ℕ
  pub until : ℕ
  pub not_before : cert.not_before ≡ pos from
  pub not_after : cert.not_after ≡ pos until
  pub starts : from + 300000000000 ≤ now
  pub starts_late : now < from + 301000000000
  pub after : now < until
  pub ends : until ≤ now + validity
  pub ends_late : now + validity < until + 1000000000

module _ {X : Crypto} (L : IsLawful X) (N : SerialSource) (ca_cert : Certificate)
    (key : X.PrivateKey) (validity : ℕ) where
  template-not_before :
      (csr : CertificateRequest) (serial : ℤ) (skid : Bytes) (now : ℕ)
      → 300000000000 ≤ now
      → let l = new_local_ca X ca_cert key (pos validity) in
        (certificate_template X l csr serial skid (pos now)).not_before ≡ pos (now - 300000000000)
  unfolding certificate_template new_local_ca ◌+ℤ◌ negate sub_nat int_eq
  template-not_before csr serial skid now h = ground (arith, h)

  template-not_after :
      (csr : CertificateRequest) (serial : ℤ) (skid : Bytes) (now : ℕ)
      → let l = new_local_ca X ca_cert key (pos validity) in
        (certificate_template X l csr serial skid (pos now)).not_after ≡ pos (now + validity)
  unfolding certificate_template new_local_ca ◌+ℤ◌
  template-not_after csr serial skid now = ground arith

  -- A certificate that the local CA issues is valid at the time at which it is issued: from five
  -- minutes earlier until the configured validity has passed, both rounded down to a second, given
  -- that the validity is a second at least.
  pub issue_certificate-IsValidAt :
      (csr : CertificateRequest) (s : LocalState X N) (now : ℕ) {cert : Certificate}
      → s.clock (s.calls + 1) ≡ pos now
      → 300000000000 ≤ now
      → 1000000000 ≤ validity
      → (issue_certificate X N (new_local_ca X ca_cert key (pos validity)) csr s).0 ≡ ok cert
      → IsValidAt now validity cert
  unfolding issue_certificate
  issue_certificate-IsValidAt csr s now {cert} clock late long h =
      let l = new_local_ca X ca_cert key (pos validity) in
      elim (Option-cases (X.check_signature csr)) [
        | inr (e, bad) ↦ absurd (ground (arith, h, bad))
        | inl good ↦ elim (Result-cases (N.next s.serials).0) [
          | inr (e, bad) ↦ absurd (ground (arith, h, good, bad))
          | inl (n, drawn) ↦
              let signed : sign X l csr n (pos now) (s.calls + 1) ≡ ok cert =
                ground (arith, h, good, drawn, clock) in
              let (skid, fields) = sign-HasFieldsOf L N l csr n _ _ signed in
              let begin = ap whole_seconds (template-not_before csr n skid now late) in
              let end = ap whole_seconds (template-not_after csr n skid now) in
              record {
                from = (now - 300000000000) / 1000000000 * 1000000000;
                until = (now + validity) / 1000000000 * 1000000000;
                not_before = fields.not_before ∙ begin;
                not_after = fields.not_after ∙ end;
                starts = omega (arith, late);
                starts_late = omega (arith, late);
                after = omega (arith, long);
                ends = omega arith;
                ends_late = omega arith;
              }
        ]
      ]
