-- ===== src/Store/FileStore/Concurrent.antt =====
-- Puts of several goroutines and lookups in a file store, as `TestFileStore_ConcurrentPuts` runs them.
use est.Common.{ℕ, List, ◌≡◌, ◌≢◌, ◌∙◌, sym, ap, arith, none, ok, Bytes, ℤ, Result, ascii, context}
use est.X509.{Certificate}
use est.Fs.{Files}
use est.Store.FileStore.{FileStore, cert_path, get_certificate, read_file}
use est.Store.Atomic.Writers.{Write, Stage, take_steps}
use est.Store.Atomic.Writers.Sound.{complete}
use est.Store.Atomic.Writers.Serial.{AreApart, start_writers, now-take_steps}

module _ (parse_certificate : Bytes → Result Certificate) (s : FileStore) where
  get_certificate-complete :
      (w : Write) (serial : ℤ) (files : Files)
      → files (cert_path s serial) ≡ complete w
      → get_certificate parse_certificate none s serial files
        ≡ context (ascii "parse certificate") (parse_certificate w.bytes)
  unfolding get_certificate read_file
  get_certificate-complete w serial files e = ground (arith, e)

  -- Whatever the order of the calls of all the writers, whose temp files are apart, and their errors:
  -- once the put of a certificate has returned without an error, and no other writer puts one under
  -- its serial number, a lookup reads that certificate, also while the others go on.
  pub get_certificate-take_steps :
      (write : ℕ → Write) (before : Files) (schedule : List ℕ) (i : ℕ) (serial : ℤ)
      → AreApart write
      → (write i).path ≡ cert_path s serial
      → ((j : ℕ) → j ≢ i → (write j).path ≢ cert_path s serial)
      → let w = take_steps write (start_writers write before) schedule in
        w.stage i ≡ Stage.returned (ok tt)
        → get_certificate parse_certificate none s serial w.disk.now
          ≡ context (ascii "parse certificate") (parse_certificate (write i).bytes)
  get_certificate-take_steps write before schedule i serial apart here sole done =
      let w = take_steps write (start_writers write before) schedule in
      get_certificate-complete (write i) serial w.disk.now (
        ap w.disk.now (sym here)
        ∙ now-take_steps write before apart schedule i (λ j other e. sole j other (e ∙ here)) done)
