-- ===== src/Store/Atomic/Writers.antt =====
-- `writeFileAtomic` of internal/store/file.go cut at its calls of the operating system, as several
-- goroutines run it: each of these calls is one step, and the steps of other writers come between
-- them in any order.
pub mod Alone
pub mod Sound
pub mod Serial
use mathlib.Core.List.{foldl}
use est.Common.{ℕ, List, none, Bytes, Result, ok, err, ascii, set_at}
use est.Fs.{Disk, Faults, step, remove_file, fail_if}
use est.Store.Atomic.{in_context, temp_path, create_temp, write_temp, chmod_temp, rename_temp}

-- The arguments of one call, with what its calls of the operating system meet.
pub record Write : Type 0 where
  pub faults : Faults
  pub path : Bytes
  pub bytes : Bytes
  pub perm : ℕ

abbrev pub temp_name : Write → Bytes
temp_name w = temp_path w.faults w.path

-- Which call is the next: `removing` is the deferred one.
pub data Stage : Type 0 where
  making_directory : Stage
  creating : Stage
  writing : Stage
  closing : Stage
  changing_mode : Stage
  renaming : Stage
  removing : Result (Unit {0}) → Stage
  returned : Result (Unit {0}) → Stage

-- After a call: the next stage, or the one that the error leads to.
abbrev next : Stage → (Result (Unit {0}) → Stage) → Result (Unit {0}) × Disk → Stage × Disk
next go stop (ok _, d) = (go, d)
next go stop (err e, d) = (stop (err e), d)

-- One step of a writer.
unfoldable pub advance_write : Write → Stage → Disk → Stage × Disk
advance_write w Stage.making_directory d =
    next Stage.creating Stage.returned (in_context (ascii "create") (fail_if w.faults.mkdir_all) d)
advance_write w Stage.creating d =
    next Stage.writing Stage.returned
      (in_context (ascii "create temp file") (create_temp w.faults (temp_name w)) d)
advance_write w Stage.writing d =
    next Stage.closing Stage.removing
      (in_context (ascii "write") (write_temp w.faults (temp_name w) w.bytes) d)
advance_write w Stage.closing d =
    next Stage.changing_mode Stage.removing (in_context (ascii "close") (fail_if w.faults.close) d)
advance_write w Stage.changing_mode d =
    next Stage.renaming Stage.removing
      (in_context (ascii "chmod") (chmod_temp w.faults (temp_name w) w.perm) d)
advance_write w Stage.renaming d =
    let (r, d') = in_context (ascii "rename") (rename_temp w.faults (temp_name w) w.path) d in
    (Stage.removing r, d')
advance_write w (Stage.removing r) d =
    (Stage.returned r, step (remove_file w.faults.remove (temp_name w)) d)
advance_write w (Stage.returned r) d = (Stage.returned r, d)

-- The disk, and how far each writer is, by number.
pub record Writers : Type 0 where
  pub disk : Disk
  pub stage : ℕ → Stage

module _ (write : ℕ → Write) where
  unfoldable pub take_step : Writers → ℕ → Writers
  take_step s i =
      let (stage, disk) = advance_write (write i) (s.stage i) s.disk in
      record { disk = disk; stage = set_at i stage s.stage }

  -- The writers go on in the order of the list.
  abbrev pub take_steps : Writers → List ℕ → Writers
  take_steps = foldl take_step
