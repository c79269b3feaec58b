-- ===== src/Store/FileStore/Lawful.antt =====
-- `FileStore` as a `Store`: its state is the disk, and the faults that its writes will meet.
use est.Common.{
  ℕ, ◌+◌, ◌≡◌, refl, sym, ap, arith, ℤ, Option, none, some, Bytes, Result, str_eq_iff, is_ok,
  Bool-cases, inl, inr,
}
use est.X509.{Certificate}
use est.Fs.{File, Disk, Faults}
use est.Store.{Store, Metadata, IsLawful}
use est.Store.Atomic.{write_file_atomic}
use est.Store.Atomic.Laws.{now-write_file_atomic, str_eq_ne}
use est.Store.FileStore.{FileStore, csr_path, cert_path, put_csr, put_certificate, get_certificate}
use est.Store.FileStore.Names.{
  cert_path-injective, csr_path-injective, csr_path-ne-cert_path, csr_path-ne-cert_meta_path,
  cert_meta_path-ne-cert_path, temp_path-ne-csr_path, temp_path-csr_path-ne-cert_path,
  temp_path-ne-cert_path, temp_path-cert_path-ne-csr_path, temp_path-cert_meta_path-ne-cert_path,
  temp_path-cert_meta_path-ne-csr_path,
}
use est.Store.FileStore.Laws.{
  now-put_certificate_ok, now-put_certificate_elsewhere, now-put_certificate,
}

pub record StoreState : Type 0 where
  pub disk : Disk
  pub faults : ℕ → Faults
  pub used : ℕ

abbrev pub content_of : Option File → Option Bytes
content_of none = none
content_of (some f) = some f.content

module _ (parse_certificate : Bytes → Result Certificate) (marshal_indent : Metadata → Result Bytes)
    (s : FileStore) where
  abbrev pub file_store : Store
  file_store = record {
    State = StoreState;
    put_csr = λ n der m st.
        let (r, d) = put_csr (st.faults st.used) s n der m st.disk in
        (r, record st { disk = d; used = st.used + 1 });
    put_certificate = λ n der m st.
        let (r, d) =
          put_certificate marshal_indent (st.faults st.used) (st.faults (st.used + 1)) s n der m
            st.disk in
        (r, record st { disk = d; used = st.used + 2 });
    get_certificate = λ n st. get_certificate parse_certificate none s n st.disk.now;
  }

  abbrev stored_csr : StoreState → ℤ → Option Bytes
  stored_csr st n = content_of (st.disk.now (csr_path s n))

  abbrev stored_certificate : StoreState → ℤ → Option Bytes
  stored_certificate st n = content_of (st.disk.now (cert_path s n))

  pub file_store-IsLawful : IsLawful file_store
  unfolding put_csr
  file_store-IsLawful = record {
    csr = stored_csr;
    certificate = stored_certificate;
    csr-put_csr = λ n der m st h. ground (
      arith,
      h,
      now-write_file_atomic (st.faults st.used) (csr_path s n) der 0o640 st.disk (csr_path s n)
          (inr (inr (temp_path-ne-csr_path s (st.faults st.used) n n))),
      (str_eq_iff (csr_path s n) (csr_path s n)).1 refl,
    );
    csr-put_csr_failed = λ n der m st e k h. ground (
      arith,
      h,
      now-write_file_atomic (st.faults st.used) (csr_path s n) der 0o640 st.disk (csr_path s k)
          (inr (inr (temp_path-ne-csr_path s (st.faults st.used) n k))),
    );
    csr-put_csr_ne = λ n der m st k ne. ground (
      arith,
      now-write_file_atomic (st.faults st.used) (csr_path s n) der 0o640 st.disk (csr_path s k)
          (inr (inr (temp_path-ne-csr_path s (st.faults st.used) n k))),
      str_eq_ne (csr_path s n) (csr_path s k) (λ e. ne (csr_path-injective s n k e)),
    );
    certificate-put_csr = λ n der m st k. ground (
      arith,
      now-write_file_atomic (st.faults st.used) (csr_path s n) der 0o640 st.disk (cert_path s k)
          (inr (inr (temp_path-csr_path-ne-cert_path s (st.faults st.used) n k))),
      str_eq_ne (csr_path s n) (cert_path s k) (csr_path-ne-cert_path s n k),
    );
    certificate-put_certificate = λ n der m st h. ap content_of (
        now-put_certificate_ok parse_certificate s marshal_indent (st.faults st.used)
          (st.faults (st.used + 1)) n der m st.disk (ground (arith, h)));
    certificate-put_certificate_ne = λ n der m st k ne. ap content_of (
        now-put_certificate_elsewhere parse_certificate s marshal_indent (st.faults st.used)
          (st.faults (st.used + 1)) n der m st.disk (cert_path s k)
          (λ e. ne (cert_path-injective s n k e)) (cert_meta_path-ne-cert_path s n k)
          (temp_path-ne-cert_path s (st.faults st.used) n k)
          (temp_path-cert_meta_path-ne-cert_path s (st.faults (st.used + 1)) n k));
    certificate-put_certificate_failed = λ n der m st e h.
        let first = write_file_atomic (st.faults st.used) (cert_path s n) der 0o640 st.disk in
        let after =
          now-put_certificate parse_certificate s marshal_indent (st.faults st.used)
            (st.faults (st.used + 1)) n n der m st.disk in
        elim (Bool-cases (is_ok first.0)) [
          | inl w ↦
              inr (ground (arith, w, after, (str_eq_iff (cert_path s n) (cert_path s n)).1 refl))
          | inr w ↦ inl (ground (arith, w, after))
        ];
    csr-put_certificate = λ n der m st k. ap content_of (
        now-put_certificate_elsewhere parse_certificate s marshal_indent (st.faults st.used)
          (st.faults (st.used + 1)) n der m st.disk (csr_path s k)
          (λ e. csr_path-ne-cert_path s k n (sym e)) (λ e. csr_path-ne-cert_meta_path s k n (sym e))
          (temp_path-cert_path-ne-csr_path s (st.faults st.used) n k)
          (temp_path-cert_meta_path-ne-csr_path s (st.faults (st.used + 1)) n k));
  }

  -- A disk without files holds no certificate.
  pub certificate_empty :
      (st : StoreState) (n : ℤ)
      → st.disk.now (cert_path s n) ≡ none
      → file_store-IsLawful.certificate st n ≡ none
  unfolding file_store-IsLawful
  certificate_empty st n h = ap content_of h

  -- The certificates of the interface are the contents of their files.
  pub certificate-content_of :
      (st : StoreState) (n : ℤ)
      → file_store-IsLawful.certificate st n ≡ content_of (st.disk.now (cert_path s n))
  unfolding file_store-IsLawful
  certificate-content_of st n = refl
