-- ===== src/Store/Atomic/Laws.antt =====
-- What `writeFileAtomic` leaves, at its end and at every moment before.
use est.Common.{
  ℕ, ◌≡◌, ◌≢◌, ◌⊎◌, refl, ap, arith, true, false, ◌&&◌, some, none, [], ◌∷◌, ◌++◌, Bytes, All,
}
use est.Common.{
  str_eq, str_eq_iff, length, length-append, ascii, is_ok, ok, Bool-cases, inl, inr, if◌then◌else◌,
}
use est.Fs.{Files, Disk, Faults, remove_file}
use est.Store.Atomic.{temp_path, create_temp, write_temp, chmod_temp, rename_temp, fill_and_rename}
use est.Store.Atomic.{remove_after, write_file_atomic}

pub str_eq_self : (p : Bytes) → str_eq p p ≡ true
str_eq_self p = (str_eq_iff p p).1 refl

pub str_eq_ne : (p q : Bytes) → p ≢ q → str_eq p q ≡ false
str_eq_ne p q h = elim (Bool-cases (str_eq p q)) [
  | inl e ↦ absurd (h ((str_eq_iff p q).0 e))
  | inr e ↦ e
]

pub temp_path-ne : (faults : Faults) (path : Bytes) → temp_path faults path ≢ path
unfolding ascii
temp_path-ne faults path e =
    omega (arith, ap length e, length-append path (ascii ".tmp-" ++ faults.suffix))

-- No call of a write fails.
pub record NoFaults (faults : Faults) : Type 0 where
  pub mkdir_all : faults.mkdir_all ≡ none
  pub create_temp : faults.create_temp ≡ none
  pub write : faults.write ≡ none
  pub close : faults.close ≡ none
  pub chmod : faults.chmod ≡ none
  pub rename : faults.rename ≡ none
  pub remove : faults.remove ≡ none

abbrev pub start : Files → Disk
start files = record { now = files; past = [] }

-- The path holds its old file, or the complete new one.
abbrev pub OldOrNew : Files → Bytes → Bytes → ℕ → Files → Type 0
OldOrNew files path bytes perm f =
    (f path ≡ files path) ⊎ (f path ≡ some (record { content = bytes; perm = perm }))

module _ (faults : Faults) (path bytes : Bytes) (perm : ℕ) (files : Files) where
  -- In every state of the run the path holds its old file or the complete new one.
  pub write_file_atomic-OldOrNew :
      let d = (write_file_atomic faults path bytes perm (start files)).1 in
      All (OldOrNew files path bytes perm) (d.now ∷ d.past)
  unfolding write_file_atomic create_temp write_temp chmod_temp rename_temp fill_and_rename
      remove_after remove_file
  write_file_atomic-OldOrNew = ground (
    arith,
    str_eq_ne (temp_path faults path) path (temp_path-ne faults path),
    str_eq_self (temp_path faults path),
    str_eq_self path,
  )

-- A run that succeeds has put the file under the path and left every other path alone, its temp file's
-- too. One that fails has changed no path, but where the deferred removal fails too, it may leave its
-- temp file.
pub now-write_file_atomic :
    (faults : Faults) (path bytes : Bytes) (perm : ℕ) (d : Disk) (q : Bytes)
    → (is_ok (write_file_atomic faults path bytes perm d).0 ≡ true)
      ⊎ ((faults.remove ≡ none) ⊎ (temp_path faults path ≢ q))
    → let (r, d') = write_file_atomic faults path bytes perm d in
      d'.now q ≡ (
        if is_ok r && str_eq path q
        then some (record { content = bytes; perm = perm })
        else d.now q)
unfolding write_file_atomic create_temp write_temp chmod_temp rename_temp fill_and_rename
    remove_after remove_file
now-write_file_atomic faults path bytes perm d q (inl good) = ground (
  arith,
  good,
  str_eq_ne (temp_path faults path) path (temp_path-ne faults path),
  str_eq_self (temp_path faults path),
  str_eq_self path,
  str_eq_iff (temp_path faults path) q,
  str_eq_iff path q,
)
now-write_file_atomic faults path bytes perm d q (inr (inl gone)) = ground (
  arith,
  gone,
  str_eq_ne (temp_path faults path) path (temp_path-ne faults path),
  str_eq_self (temp_path faults path),
  str_eq_self path,
  str_eq_iff (temp_path faults path) q,
  str_eq_iff path q,
)
now-write_file_atomic faults path bytes perm d q (inr (inr other)) = ground (
  arith,
  str_eq_ne (temp_path faults path) path (temp_path-ne faults path),
  str_eq_ne (temp_path faults path) q other,
  str_eq_self (temp_path faults path),
  str_eq_self path,
  str_eq_iff path q,
)

-- A run succeeds if no call fails and the name of the temp file is new.
pub write_file_atomic-ok :
    (faults : Faults) (path bytes : Bytes) (perm : ℕ) (d : Disk)
    → NoFaults faults
    → d.now (temp_path faults path) ≡ none
    → (write_file_atomic faults path bytes perm d).0 ≡ ok tt
unfolding write_file_atomic create_temp write_temp chmod_temp rename_temp fill_and_rename
    remove_after remove_file
write_file_atomic-ok faults path bytes perm d h fresh =
    ground (arith, str_eq_self (temp_path faults path))
