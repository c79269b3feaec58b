-- ===== src/Store/Kept.antt =====
-- Nothing that a store holds is lost to a put, whether the put succeeds or not.
use est.Common.{
  subst, ℤ, int_eq, int_eq_iff, ◌≡◌, ◌≢◌, arith, none, false, ◌⊎◌, Bytes, Result-cases, Bool-cases,
  inl, inr,
}
use est.Store.{Store, Metadata, IsLawful}

module _ {S : Store} (L : IsLawful S) where
  -- A CSR, and a certificate, is stored under a serial.
  abbrev pub HasCsr : S.State → ℤ → Type 0
  HasCsr s k = L.csr s k ≢ none

  abbrev pub HasCertificate : S.State → ℤ → Type 0
  HasCertificate s k = L.certificate s k ≢ none

  differ : (n k : ℤ) → int_eq n k ≡ false → n ≢ k
  differ n k e p = cc ((int_eq_iff n k).1 p, e)

  pub put_csr-HasCsr :
      (n : ℤ) (der : Bytes) (m : Metadata) (s : S.State) (k : ℤ)
      → HasCsr s k
      → HasCsr (S.put_csr n der m s).1 k
  put_csr-HasCsr n der m s k h = elim (Bool-cases (int_eq n k)) [
    | inr other ↦ ground (arith, h, L.csr-put_csr_ne n der m s k (differ n k other))
    | inl same ↦ elim (Result-cases (S.put_csr n der m s).0) [
      | inl (_, e) ↦ ground (arith, same, int_eq_iff n k, L.csr-put_csr n der m s e)
      | inr (x, e) ↦ ground (arith, h, L.csr-put_csr_failed n der m s x k e)
    ]
  ]

  pub put_certificate-HasCertificate :
      (n : ℤ) (der : Bytes) (m : Metadata) (s : S.State) (k : ℤ)
      → HasCertificate s k
      → HasCertificate (S.put_certificate n der m s).1 k
  put_certificate-HasCertificate n der m s k h = elim (Bool-cases (int_eq n k)) [
    | inr other ↦ ground (arith, h, L.certificate-put_certificate_ne n der m s k (differ n k other))
    | inl same ↦ elim (Result-cases (S.put_certificate n der m s).0) [
      | inl (_, e) ↦ ground (arith, same, int_eq_iff n k, L.certificate-put_certificate n der m s e)
      | inr (x, e) ↦
          ground
            (arith, h, same, int_eq_iff n k, L.certificate-put_certificate_failed n der m s x e)
    ]
  ]

  pub put_certificate-HasCertificate_new :
      (n : ℤ) (der : Bytes) (m : Metadata) (s : S.State) (k : ℤ)
      → HasCertificate (S.put_certificate n der m s).1 k
      → (n ≡ k) ⊎ HasCertificate s k
  put_certificate-HasCertificate_new n der m s k h = elim (Bool-cases (int_eq n k)) [
    | inl same ↦ inl ((int_eq_iff n k).0 same)
    | inr other ↦
        inr (ground (arith, h, L.certificate-put_certificate_ne n der m s k (differ n k other)))
  ]

  -- Nothing in the first state is lost in the second.
  pub record Grows (s t : S.State) : Type 0 where
    pub csr : (k : ℤ) → HasCsr s k → HasCsr t k
    pub certificate : (k : ℤ) → HasCertificate s k → HasCertificate t k

  pub Grows-refl : (s : S.State) → Grows s s
  Grows-refl s = record { csr = λ k h. h; certificate = λ k h. h }

  pub put_csr-Grows :
      (n : ℤ) (der : Bytes) (m : Metadata) (s : S.State) → Grows s (S.put_csr n der m s).1
  put_csr-Grows n der m s = record {
    csr = put_csr-HasCsr n der m s;
    certificate = λ k h. ground (arith, h, L.certificate-put_csr n der m s k);
  }

  pub put_certificate-Grows :
      (n : ℤ) (der : Bytes) (m : Metadata) (s : S.State) → Grows s (S.put_certificate n der m s).1
  put_certificate-Grows n der m s = record {
    csr = λ k h. ground (arith, h, L.csr-put_certificate n der m s k);
    certificate = put_certificate-HasCertificate n der m s;
  }

  -- Every stored certificate has its CSR.
  pub record HasCsrs (s : S.State) : Type 0 where
    pub apply : (k : ℤ) → HasCertificate s k → HasCsr s k

  pub put_csr-HasCsrs :
      (n : ℤ) (der : Bytes) (m : Metadata) (s : S.State)
      → HasCsrs s
      → HasCsrs (S.put_csr n der m s).1
  put_csr-HasCsrs n der m s h = record {
    apply = λ k c.
        put_csr-HasCsr n der m s k
          (h.apply k (ground (arith, c, L.certificate-put_csr n der m s k)));
  }

  pub put_certificate-HasCsrs :
      (n : ℤ) (der : Bytes) (m : Metadata) (s : S.State)
      → HasCsrs s
      → HasCsr s n
      → HasCsrs (S.put_certificate n der m s).1
  put_certificate-HasCsrs n der m s h own = record {
    apply = λ k c.
        let grown = put_certificate-Grows n der m s in
        elim (put_certificate-HasCertificate_new n der m s k c) [
          | inl same ↦ grown.csr k (subst (HasCsr s) same own)
          | inr old ↦ grown.csr k (h.apply k old)
        ];
  }
