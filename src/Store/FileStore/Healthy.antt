-- ===== src/Store/FileStore/Healthy.antt =====
-- Puts into a file store where no call fails.
use est.Common.{
  ℕ, ◌+◌, ◌<◌, ◌≡◌, ◌≢◌, ap, arith, none, ℤ, Bytes, ◌∷◌, ◌++◌, Result, ok, ascii, length,
  length-append, inl, inr,
}
use est.X509.{Certificate}
use est.Fs.{Disk, Faults}
use est.Store.{Store, Metadata}
use est.Store.Atomic.{temp_path, write_file_atomic}
use est.Store.Atomic.Laws.{NoFaults, now-write_file_atomic, str_eq_ne, write_file_atomic-ok}
use est.Store.FileStore.{
  FileStore, serial_hex, join, csr_path, cert_path, cert_meta_path, put_csr, put_certificate,
}
use est.Store.FileStore.Lawful.{StoreState, file_store}

length-join :
    (dir folder name : Bytes)
    → length (join dir folder name) ≡ length dir + length folder + length name + 2
unfolding join
length-join dir folder name = omega (
  arith,
  length-append dir (b'/' ∷ (folder ++ (b'/' ∷ name))),
  length-append folder (b'/' ∷ name),
)

-- The three paths of a serial number differ by one in length.
length-cert_path : (s : FileStore) (n : ℤ) → length (cert_path s n) ≡ length (csr_path s n) + 1
unfolding cert_path csr_path ascii
length-cert_path s n =
    let name = serial_hex n ++ ascii ".der" in
    omega (arith, length-join s.dir (ascii "certs") name, length-join s.dir (ascii "csrs") name)

length-cert_meta_path :
    (s : FileStore) (n : ℤ) → length (cert_meta_path s n) ≡ length (cert_path s n) + 1
unfolding cert_path cert_meta_path ascii
length-cert_meta_path s n =
    let hex = serial_hex n in
    let folder = ascii "certs" in
    omega (
      arith,
      length-join s.dir folder (hex ++ ascii ".json"),
      length-join s.dir folder (hex ++ ascii ".der"),
      length-append hex (ascii ".json"),
      length-append hex (ascii ".der"),
    )

length-temp_path : (faults : Faults) (path : Bytes) → length path < length (temp_path faults path)
unfolding ascii
length-temp_path faults path = omega (arith, length-append path (ascii ".tmp-" ++ faults.suffix))

-- A write in which no call fails keeps a name free that is not its path.
stays_free :
    (faults : Faults) (path bytes : Bytes) (perm : ℕ) (d : Disk) (q : Bytes)
    → NoFaults faults
    → path ≢ q
    → d.now q ≡ none
    → (write_file_atomic faults path bytes perm d).1.now q ≡ none
stays_free faults path bytes perm d q healthy other free = ground (
  arith,
  free,
  str_eq_ne path q other,
  now-write_file_atomic faults path bytes perm d q (inr (inl healthy.remove)),
)

-- No call of the next three writes fails, and the names that they draw for their temp files are free.
pub record IsHealthy (s : FileStore) (n : ℤ) (st : StoreState) : Type 0 where
  pub csr : NoFaults (st.faults st.used)
  pub cert : NoFaults (st.faults (st.used + 1))
  pub meta : NoFaults (st.faults (st.used + 2))
  pub csr_free : st.disk.now (temp_path (st.faults st.used) (csr_path s n)) ≡ none
  pub cert_free : st.disk.now (temp_path (st.faults (st.used + 1)) (cert_path s n)) ≡ none
  pub meta_free : st.disk.now (temp_path (st.faults (st.used + 2)) (cert_meta_path s n)) ≡ none

module _ (parse_certificate : Bytes → Result Certificate) (marshal_indent : Metadata → Result Bytes)
    (s : FileStore) where
  abbrev store : Store
  store = file_store parse_certificate marshal_indent s

  pub put_csr-ok :
      (n : ℤ) (der : Bytes) (m : Metadata) (st : StoreState)
      → IsHealthy s n st
      → (store.put_csr n der m st).0 ≡ ok tt
  unfolding put_csr
  put_csr-ok n der m st h =
      write_file_atomic-ok (st.faults st.used) (csr_path s n) der 0o640 st.disk h.csr h.csr_free

  -- The put of the certificate after that of its CSR.
  pub put_certificate-ok :
      (n : ℤ) (csr_der cert_der : Bytes) (m : Metadata) (st : StoreState) {json : Bytes}
      → IsHealthy s n st
      → marshal_indent m ≡ ok json
      → (store.put_certificate n cert_der m (store.put_csr n csr_der m st).1).0 ≡ ok tt
  unfolding put_csr put_certificate
  put_certificate-ok n csr_der cert_der m st {json} h e =
      let cert_faults = st.faults (st.used + 1) in
      let meta_faults = st.faults (st.used + 2) in
      let longer = length-temp_path cert_faults (cert_path s n) in
      let longest = length-temp_path meta_faults (cert_meta_path s n) in
      let csr_length = length-cert_path s n in
      let cert_length = length-cert_meta_path s n in
      let (_, d1) = write_file_atomic (st.faults st.used) (csr_path s n) csr_der 0o640 st.disk in
      let (_, d2) = write_file_atomic cert_faults (cert_path s n) cert_der 0o640 d1 in
      let cert_free =
        stays_free (st.faults st.used) (csr_path s n) csr_der 0o640 st.disk
          (temp_path cert_faults (cert_path s n)) h.csr
          (λ p. omega (arith, ap length p, longer, csr_length)) h.cert_free in
      let meta_free_once =
        stays_free (st.faults st.used) (csr_path s n) csr_der 0o640 st.disk
          (temp_path meta_faults (cert_meta_path s n)) h.csr
          (λ p. omega (arith, ap length p, longest, csr_length, cert_length)) h.meta_free in
      let meta_free =
        stays_free cert_faults (cert_path s n) cert_der 0o640 d1
          (temp_path meta_faults (cert_meta_path s n)) h.cert
          (λ p. omega (arith, ap length p, longest, cert_length)) meta_free_once in
      ground (
        arith,
        e,
        write_file_atomic-ok cert_faults (cert_path s n) cert_der 0o640 d1 h.cert cert_free,
        write_file_atomic-ok meta_faults (cert_meta_path s n) json 0o640 d2 h.meta meta_free,
      )
