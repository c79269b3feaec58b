-- ===== src/Fs.antt =====
-- Files as the `os` calls of internal/store leave them. A run keeps every state that it went through,
-- so a crash or another reader between two calls sees one of them. Directories are not kept: a path
-- is a key. What the operating system decides, errors and random names, is an input, `Faults`.
use est.Common.{ℕ, ◌≡◌, refl, List, ◌∷◌, Option, none, some, Bytes, str_eq, str_eq_iff}
use est.Common.{if◌then◌else◌, Error, Result, ok, err}

pub record File : Type 0 where
  pub content : Bytes
  pub perm : ℕ

abbrev pub Files : Type 0
Files = Bytes → Option File

-- Later states stand in front.
pub record Disk : Type 0 where
  pub now : Files
  pub past : List Files

-- What the calls of one write meet: the random suffix of the temp file, and the errors. A write that
-- fails has written some bytes.
pub record Faults : Type 0 where
  pub suffix : Bytes
  pub mkdir_all : Option Error
  pub create_temp : Option Error
  pub write : Option (ℕ × Error)
  pub close : Option Error
  pub chmod : Option Error
  pub rename : Option Error
  pub remove : Option Error

-- An operation returns its result and the disk that it leaves.
abbrev pub Run {ℓ} : Type ℓ → Type ℓ
Run A = Disk → Result A × Disk

abbrev pub step : (Files → Files) → Disk → Disk
step f d = record { now = f d.now; past = d.now ∷ d.past }

abbrev pub update : Bytes → Option File → Files → Files
update p v files q = if str_eq p q then v else files q

-- `os.Remove`, whose error is ignored: where it fails the file stays.
unfoldable pub remove_file : Option Error → Bytes → Files → Files
remove_file none path files = update path none files
remove_file (some e) path files = files

pub update-same : (p : Bytes) (v : Option File) (files : Files) → update p v files p ≡ v
update-same p v files = rw (str_eq_iff p p).1 refl

infixl 5 ◌>>=◌ ◌>>◌
abbrev pub ◌>>=◌ {ℓ} : {A B : Type ℓ} → Run A → (A → Run B) → Run B
◌>>=◌ m f d = let (r, d') = m d in elim r [ ok a ↦ f a d' | err e ↦ (err e, d') ]

abbrev pub ◌>>◌ : Run (Unit {0}) → Run (Unit {0}) → Run (Unit {0})
m >> k = m >>= λ _. k

-- A call that changes no file, and fails as told.
abbrev pub fail_if : Option Error → Run (Unit {0})
fail_if none d = (ok tt, d)
fail_if (some e) d = (err e, d)
