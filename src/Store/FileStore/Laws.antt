-- ===== src/Store/FileStore/Laws.antt =====
-- Storing and reading back.
use est.Common.{◌≡◌, ◌≢◌, refl, arith, ◌&&◌, some, none, Bytes, ℤ}
use est.Common.{
  str_eq, str_eq_iff, ascii, is_ok, ok, Result, context, Result-cases, inl, inr, if◌then◌else◌,
}
use est.X509.{Certificate}
use est.Fs.{Files, Disk, Faults}
use est.Store.{Metadata}
use est.Store.Atomic.{temp_path, write_file_atomic}
use est.Store.Atomic.Laws.{now-write_file_atomic, str_eq_ne}
use est.Store.FileStore.{
  FileStore, csr_path, cert_path, cert_meta_path, put_csr, put_certificate, get_certificate,
  read_file,
}
use est.Store.FileStore.Names.{
  cert_path-injective, csr_path-ne-cert_path, cert_meta_path-ne-cert_path, temp_path-ne-cert_path,
  temp_path-csr_path-ne-cert_path, temp_path-cert_meta_path-ne-cert_path,
}

module _ (parse_certificate : Bytes → Result Certificate) (s : FileStore) where
  -- A lookup reads one path.
  get_certificate-congr :
      (serial : ℤ) (f g : Files)
      → f (cert_path s serial) ≡ g (cert_path s serial)
      → get_certificate parse_certificate none s serial f
        ≡ get_certificate parse_certificate none s serial g
  unfolding get_certificate read_file
  get_certificate-congr serial f g e = ground (arith, e)

  -- Storing a CSR changes no certificate, whether it succeeds or not.
  pub get_certificate-put_csr :
      (faults : Faults) (serial other : ℤ) (csr_der : Bytes) (meta : Metadata) (d : Disk)
      → let d' = (put_csr faults s serial csr_der meta d).1 in
        get_certificate parse_certificate none s other d'.now
        ≡ get_certificate parse_certificate none s other d.now
  unfolding put_csr
  get_certificate-put_csr faults serial other csr_der meta d =
      let path = csr_path s serial in
      let differ = str_eq_ne path (cert_path s other) (csr_path-ne-cert_path s serial other) in
      get_certificate-congr other _ _ (
        ground (
          arith,
          differ,
          now-write_file_atomic faults path csr_der 0o640 d (cert_path s other)
              (inr (inr (temp_path-csr_path-ne-cert_path s faults serial other))),
        ))

  module _ (marshal_indent : Metadata → Result Bytes) where
    -- The path of a certificate after one was put: it counts whether the first write succeeded.
    pub now-put_certificate :
        (faults meta_faults : Faults) (serial other : ℤ) (cert_der : Bytes) (meta : Metadata)
        (d : Disk)
        → let d' = (put_certificate marshal_indent faults meta_faults s serial cert_der meta d).1 in
          let written = write_file_atomic faults (cert_path s serial) cert_der 0o640 d in
          d'.now (cert_path s other) ≡ (
            if is_ok written.0 && str_eq (cert_path s serial) (cert_path s other)
            then some (record { content = cert_der; perm = 0o640 })
            else d.now (cert_path s other))
    unfolding put_certificate
    now-put_certificate faults meta_faults serial other cert_der meta d =
        let q = cert_path s other in
        let p = cert_meta_path s serial in
        let (r, d1) = write_file_atomic faults (cert_path s serial) cert_der 0o640 d in
        let differ = str_eq_ne p q (cert_meta_path-ne-cert_path s serial other) in
        let apart = temp_path-ne-cert_path s faults serial other in
        elim (Result-cases (marshal_indent meta)) [
          | inl (json, e) ↦ ground (
            arith,
            e,
            differ,
            now-write_file_atomic faults (cert_path s serial) cert_der 0o640 d q (inr (inr apart)),
            now-write_file_atomic meta_faults p json 0o640 d1 q
                (inr (inr (temp_path-cert_meta_path-ne-cert_path s meta_faults serial other))),
          )
          | inr (x, e) ↦ ground (
            arith,
            e,
            now-write_file_atomic faults (cert_path s serial) cert_der 0o640 d q (inr (inr apart)),
          )
        ]

    -- After a put of a certificate that succeeds, a lookup under its serial number parses the bytes
    -- that were put.
    pub get_certificate-put_certificate :
        (faults meta_faults : Faults) (serial : ℤ) (cert_der : Bytes) (meta : Metadata) (d : Disk)
        → (put_certificate marshal_indent faults meta_faults s serial cert_der meta d).0 ≡ ok tt
        → let d' = (put_certificate marshal_indent faults meta_faults s serial cert_der meta d).1 in
          get_certificate parse_certificate none s serial d'.now
          ≡ context (ascii "parse certificate") (parse_certificate cert_der)
    unfolding get_certificate read_file put_certificate
    get_certificate-put_certificate faults meta_faults serial cert_der meta d h = ground (
      arith,
      h,
      now-put_certificate faults meta_faults serial serial cert_der meta d,
      (str_eq_iff (cert_path s serial) (cert_path s serial)).1 refl,
    )

    -- Putting a certificate changes none of another serial, whether it succeeds or not.
    pub get_certificate-put_certificate_ne :
        (faults meta_faults : Faults) (serial other : ℤ) (cert_der : Bytes) (meta : Metadata)
        (d : Disk)
        → serial ≢ other
        → let d' = (put_certificate marshal_indent faults meta_faults s serial cert_der meta d).1 in
          get_certificate parse_certificate none s other d'.now
          ≡ get_certificate parse_certificate none s other d.now
    get_certificate-put_certificate_ne faults meta_faults serial other cert_der meta d ne =
        let differ =
          str_eq_ne (cert_path s serial) (cert_path s other)
            (λ e. ne (cert_path-injective s serial other e)) in
        get_certificate-congr other _ _ (
          ground
            (arith, differ, now-put_certificate faults meta_faults serial other cert_der meta d))

    -- A put that succeeds has stored the certificate.
    pub now-put_certificate_ok :
        (faults meta_faults : Faults) (serial : ℤ) (cert_der : Bytes) (meta : Metadata) (d : Disk)
        → (put_certificate marshal_indent faults meta_faults s serial cert_der meta d).0 ≡ ok tt
        → let d' = (put_certificate marshal_indent faults meta_faults s serial cert_der meta d).1 in
          d'.now (cert_path s serial) ≡ some (record { content = cert_der; perm = 0o640 })
    unfolding put_certificate
    now-put_certificate_ok faults meta_faults serial cert_der meta d h = ground (
      arith,
      h,
      now-put_certificate faults meta_faults serial serial cert_der meta d,
      (str_eq_iff (cert_path s serial) (cert_path s serial)).1 refl,
    )

    -- A put touches the paths of the certificate and of its metadata, and those of their temp
    -- files, alone.
    pub now-put_certificate_elsewhere :
        (faults meta_faults : Faults) (serial : ℤ) (cert_der : Bytes) (meta : Metadata) (d : Disk)
        (q : Bytes)
        → cert_path s serial ≢ q
        → cert_meta_path s serial ≢ q
        → temp_path faults (cert_path s serial) ≢ q
        → temp_path meta_faults (cert_meta_path s serial) ≢ q
        → (put_certificate marshal_indent faults meta_faults s serial cert_der meta d).1.now q
          ≡ d.now q
    unfolding put_certificate
    now-put_certificate_elsewhere faults meta_faults serial cert_der meta d q ne ne' apart apart' =
        let p = cert_path s serial in
        let (r, d1) = write_file_atomic faults p cert_der 0o640 d in
        let first = now-write_file_atomic faults p cert_der 0o640 d q (inr (inr apart)) in
        let differ = str_eq_ne p q ne in
        let differ' = str_eq_ne (cert_meta_path s serial) q ne' in
        elim (Result-cases (marshal_indent meta)) [
          | inl (json, e) ↦ ground (
            arith,
            e,
            differ,
            differ',
            first,
            now-write_file_atomic meta_faults (cert_meta_path s serial) json 0o640 d1 q
                (inr (inr apart')),
          )
          | inr (x, e) ↦ ground (arith, e, differ, first)
        ]
