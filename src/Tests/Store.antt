-- ===== src/Tests/Store.antt =====
-- Files on a disk without and with faults.
use est.Common.{
  ◌≡◌, ◌&&◌, is_ok, str_eq, if◌then◌else◌, some, [], ◌∷◌, ascii, new, none, ok, pos, refl, context,
  inr,
}
use est.Fs.{Faults, remove_file}
use est.Store.Atomic.{write_file_atomic}
use est.Store.Atomic.Laws.{temp_path-ne, now-write_file_atomic}
use est.Store.{Metadata}
use est.Store.Atomic.{
  create_temp, write_temp, chmod_temp, rename_temp, fill_and_rename, remove_after,
}
use est.Store.FileStore.{
  put_certificate, get_certificate, cert_path, cert_meta_path, join, serial_hex,
}
use est.Store.FileStore.Laws.{get_certificate-put_certificate}
use est.Hex.{hex, hex_loop, hex_digit, pad_zeros}
use est.Tests.Data.{no_faults, empty_disk, cert_der, parse_certificate, marshal_indent, directory}

-- Neither the write nor the removal of the temp file goes well.
abbrev full_disk : Faults
full_disk = record no_faults {
  write = some (1, new (ascii "no space left on device"));
  remove = some (new (ascii "input/output error"));
}

now-write_file_atomic_example :
    let (r, d') = write_file_atomic full_disk (b'f' ∷ []) (1 ∷ 2 ∷ []) 0o640 empty_disk in
    d'.now (b'f' ∷ []) ≡ (
      if is_ok r && str_eq (b'f' ∷ []) (b'f' ∷ [])
      then some (record { content = 1 ∷ 2 ∷ []; perm = 0o640 })
      else empty_disk.now (b'f' ∷ []))
now-write_file_atomic_example =
    now-write_file_atomic full_disk (b'f' ∷ []) (1 ∷ 2 ∷ []) 0o640 empty_disk (b'f' ∷ [])
      (inr (inr (temp_path-ne full_disk (b'f' ∷ []))))

abbrev meta : Metadata
meta = record { requester = []; remote_addr = []; received_at = pos 0 }

has_put :
    (put_certificate marshal_indent no_faults no_faults directory
      (pos 7)
      (cert_der 7)
      meta
      empty_disk).0
    ≡ ok tt
unfolding put_certificate write_file_atomic create_temp write_temp chmod_temp rename_temp
    fill_and_rename remove_after remove_file cert_path cert_meta_path join serial_hex pad_zeros hex
    hex_loop hex_digit ascii str_eq
has_put = refl

get_certificate-put_certificate_example :
    let d =
      (put_certificate marshal_indent no_faults no_faults directory
        (pos 7)
        (cert_der 7)
        meta
        empty_disk).1 in
    get_certificate parse_certificate none directory (pos 7) d.now
    ≡ context (ascii "parse certificate") (parse_certificate (cert_der 7))
get_certificate-put_certificate_example =
    get_certificate-put_certificate parse_certificate directory marshal_indent no_faults no_faults
      (pos 7) (cert_der 7) meta empty_disk has_put
