-- ===== src/Store/Atomic.antt =====
-- `writeFileAtomic` of internal/store/file.go.
pub mod Laws
pub mod Writers
use est.Common.{
  ℕ, List, [], ◌∷◌, ◌++◌, Option, none, some, Bytes, ascii, take, Error, Result, ok, err, new, wrap,
  is_some, if◌then◌else◌, context,
}
use est.Fs.{File, Files, Disk, Faults, Run, step, update, remove_file, fail_if, ◌>>=◌, ◌>>◌}

-- `fmt.Errorf("p: %w", err)` around a call.
abbrev in_context : Bytes → Run (Unit {0}) → Run (Unit {0})
in_context p m d = let (r, d') = m d in (context p r, d')

-- The temp file's name: `CreateTemp` replaces the `*` of `<base>.tmp-*`.
abbrev pub temp_path : Faults → Bytes → Bytes
temp_path faults path = path ++ (ascii ".tmp-" ++ faults.suffix)

-- `os.CreateTemp`: an empty file, readable by its owner, under a name that did not exist. It draws
-- other names where one exists; a suffix whose name exists here stands for the end of its tries.
unfoldable pub create_temp : Faults → Bytes → Run (Unit {0})
create_temp faults tmp d = elim faults.create_temp [
  | some e ↦ (err e, d)
  | none ↦
      if is_some (d.now tmp)
      then (err (new (ascii "file exists")), d)
      else (ok tt, step (update tmp (some (record { content = []; perm = 0o600 }))) d)
]

abbrev set_content : Bytes → Option File → Option File
set_content bytes none = none
set_content bytes (some f) = some (record f { content = bytes })

-- `tmp.Write`, in one piece or cut short. The descriptor is open, also where the name is gone.
unfoldable pub write_temp : Faults → Bytes → Bytes → Run (Unit {0})
write_temp faults tmp bytes d = elim faults.write [
  | none ↦ (ok tt, step (λ files. update tmp (set_content bytes (files tmp)) files) d)
  | some (n, e) ↦
      (err e, step (λ files. update tmp (set_content (take n bytes) (files tmp)) files) d)
]

abbrev missing : Error
missing = new (ascii "no such file or directory")

unfoldable pub chmod_temp : Faults → Bytes → ℕ → Run (Unit {0})
chmod_temp faults tmp perm d = elim faults.chmod [
  | none ↦ elim (d.now tmp) [
    | some f ↦ (ok tt, step (update tmp (some (record f { perm = perm }))) d)
    | none ↦ (err missing, d)
  ]
  | some e ↦ (err e, d)
]

-- `os.Rename`: in one step the target is the temp file, and the temp file is gone.
unfoldable pub rename_temp : Faults → Bytes → Bytes → Run (Unit {0})
rename_temp faults tmp path d = elim faults.rename [
  | none ↦ elim (d.now tmp) [
    | some f ↦ (ok tt, step (λ files. update tmp none (update path (some f) files)) d)
    | none ↦ (err missing, d)
  ]
  | some e ↦ (err e, d)
]

-- From `tmp.Write` to `os.Rename`.
unfoldable pub fill_and_rename : Faults → Bytes → Bytes → Bytes → ℕ → Run (Unit {0})
fill_and_rename faults tmp path bytes perm = do
  in_context (ascii "write") (write_temp faults tmp bytes)
  in_context (ascii "close") (fail_if faults.close)
  in_context (ascii "chmod") (chmod_temp faults tmp perm)
  in_context (ascii "rename") (rename_temp faults tmp path)

-- The deferred `os.Remove` runs once the temp file exists, whatever the rest returns. Its error is
-- ignored.
unfoldable pub remove_after : Faults → Bytes → Run (Unit {0}) → Run (Unit {0})
remove_after faults tmp m d = let (r, d') = m d in (r, step (remove_file faults.remove tmp) d')

unfoldable pub write_file_atomic : Faults → Bytes → Bytes → ℕ → Run (Unit {0})
write_file_atomic faults path bytes perm = do
  in_context (ascii "create") (fail_if faults.mkdir_all)
  in_context (ascii "create temp file") (create_temp faults (temp_path faults path))
  remove_after faults (temp_path faults path)
      (fill_and_rename faults (temp_path faults path) path bytes perm)
