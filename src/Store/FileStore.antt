-- ===== src/Store/FileStore.antt =====
-- `FileStore` of internal/store/file.go.
pub mod Names
pub mod Laws
pub mod Lawful
pub mod Concurrent
pub mod Healthy
use est.Common.{
  ℕ, suc, ◌+◌, List, [], ◌∷◌, ◌++◌, Option, none, some, Bytes, ascii, ℤ, pos, negsuc, Error, Result,
  ok, err, new, context,
}
use est.Hex.{hex, pad_zeros}
use est.X509.{Certificate}
use est.Fs.{Files, Disk, Faults, Run, fail_if, ◌>>=◌, ◌>>◌}
use est.Store.{Metadata}
use est.Store.Atomic.{write_file_atomic}

-- The directory, clean: `filepath.Join` leaves it as it is.
pub record FileStore : Type 0 where
  pub dir : Bytes

-- `NewFileStore`; `mkdir_all` is what `os.MkdirAll` returns.
unfoldable pub new_file_store : Option Error → Bytes → Result FileStore
new_file_store none dir = ok (record { dir = dir })
new_file_store (some e) dir = context (ascii "store: create") (err e)

-- `fmt.Sprintf("%040x", serial)`: the sign counts among the 40 characters.
unfoldable pub serial_hex : ℤ → Bytes
serial_hex (pos n) = pad_zeros 40 (hex n)
serial_hex (negsuc n) = b'-' ∷ pad_zeros 39 (hex (n + 1))

-- `filepath.Join(dir, folder, name)`
unfoldable pub join : Bytes → Bytes → Bytes → Bytes
join dir folder name = dir ++ (b'/' ∷ (folder ++ (b'/' ∷ name)))

unfoldable pub csr_path : FileStore → ℤ → Bytes
csr_path s serial = join s.dir (ascii "csrs") (serial_hex serial ++ ascii ".der")

unfoldable pub cert_path : FileStore → ℤ → Bytes
cert_path s serial = join s.dir (ascii "certs") (serial_hex serial ++ ascii ".der")

unfoldable pub cert_meta_path : FileStore → ℤ → Bytes
cert_meta_path s serial = join s.dir (ascii "certs") (serial_hex serial ++ ascii ".json")

unfoldable pub put_csr : Faults → FileStore → ℤ → Bytes → Metadata → Run (Unit {0})
put_csr faults s serial csr_der meta = write_file_atomic faults (csr_path s serial) csr_der 0o640

-- `marshal_indent` is `json.MarshalIndent(meta, "", "  ")`. The two writes meet their own faults.
module _ (marshal_indent : Metadata → Result Bytes) where
  abbrev marshal : Metadata → Run Bytes
  marshal meta d = (context (ascii "marshal metadata") (marshal_indent meta), d)

  unfoldable pub put_certificate :
      Faults → Faults → FileStore → ℤ → Bytes → Metadata → Run (Unit {0})
  put_certificate faults meta_faults s serial cert_der meta = do
    write_file_atomic faults (cert_path s serial) cert_der 0o640
    meta_json ← marshal meta
    write_file_atomic meta_faults (cert_meta_path s serial) meta_json 0o640

-- `os.ReadFile`, with the error that it meets, if any.
unfoldable pub read_file : Option Error → Files → Bytes → Result Bytes
read_file (some e) files path = err e
read_file none files path = elim (files path) [
  | some f ↦ ok f.content
  | none ↦ err (new (ascii "no such file or directory"))
]

-- `parse_certificate` is `x509.ParseCertificate`.
module _ (parse_certificate : Bytes → Result Certificate) where
  unfoldable pub get_certificate : Option Error → FileStore → ℤ → Files → Result Certificate
  get_certificate fault s serial files =
      elim (context (ascii "read certificate") (read_file fault files (cert_path s serial))) [
        | ok der ↦ context (ascii "parse certificate") (parse_certificate der)
        | err e ↦ err e
      ]
