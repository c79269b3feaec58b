-- ===== src/Store.antt =====
-- internal/store/store.go: the interface of a store, and what its operations promise.
pub mod Atomic
pub mod FileStore
pub mod Kept
use est.Common.{◌⊎◌, ℤ, Bytes, Option, some, Result, ok, err, Error, ◌≡◌, ◌≢◌}
use est.X509.{Certificate}

-- `Metadata`; the time is in nanoseconds.
pub record Metadata : Type 0 where
  pub requester : Bytes
  pub remote_addr : Bytes
  pub received_at : ℤ

-- `Store`
pub record Store : Type 1 where
  pub State : Type 0
  pub put_csr : ℤ → Bytes → Metadata → State → Result (Unit {0}) × State
  pub put_certificate : ℤ → Bytes → Metadata → State → Result (Unit {0}) × State
  pub get_certificate : ℤ → State → Result Certificate

-- The stored bytes, by kind and serial. A failed put leaves what was there or the new bytes.
pub record IsLawful (S : Store) : Type 0 where
  pub csr : S.State → ℤ → Option Bytes
  pub certificate : S.State → ℤ → Option Bytes
  pub csr-put_csr :
      (n : ℤ) (der : Bytes) (m : Metadata) (s : S.State)
      → (S.put_csr n der m s).0 ≡ ok tt
      → csr (S.put_csr n der m s).1 n ≡ some der
  pub csr-put_csr_failed :
      (n : ℤ) (der : Bytes) (m : Metadata) (s : S.State) (e : Error) (k : ℤ)
      → (S.put_csr n der m s).0 ≡ err e
      → csr (S.put_csr n der m s).1 k ≡ csr s k
  pub csr-put_csr_ne :
      (n : ℤ) (der : Bytes) (m : Metadata) (s : S.State) (k : ℤ)
      → n ≢ k
      → csr (S.put_csr n der m s).1 k ≡ csr s k
  pub certificate-put_csr :
      (n : ℤ) (der : Bytes) (m : Metadata) (s : S.State) (k : ℤ)
      → certificate (S.put_csr n der m s).1 k ≡ certificate s k
  pub certificate-put_certificate :
      (n : ℤ) (der : Bytes) (m : Metadata) (s : S.State)
      → (S.put_certificate n der m s).0 ≡ ok tt
      → certificate (S.put_certificate n der m s).1 n ≡ some der
  pub certificate-put_certificate_ne :
      (n : ℤ) (der : Bytes) (m : Metadata) (s : S.State) (k : ℤ)
      → n ≢ k
      → certificate (S.put_certificate n der m s).1 k ≡ certificate s k
  pub certificate-put_certificate_failed :
      (n : ℤ) (der : Bytes) (m : Metadata) (s : S.State) (e : Error)
      → (S.put_certificate n der m s).0 ≡ err e
      → (certificate (S.put_certificate n der m s).1 n ≡ certificate s n)
        ⊎ (certificate (S.put_certificate n der m s).1 n ≡ some der)
  pub csr-put_certificate :
      (n : ℤ) (der : Bytes) (m : Metadata) (s : S.State) (k : ℤ)
      → csr (S.put_certificate n der m s).1 k ≡ csr s k
