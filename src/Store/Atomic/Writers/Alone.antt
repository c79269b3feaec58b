-- ===== src/Store/Atomic/Writers/Alone.antt =====
-- A writer that no other disturbs does what `writeFileAtomic` does.
use est.Common.{ℕ, zero, suc, ◌≡◌, arith}
use est.Fs.{Disk}
use est.Store.Atomic.{fill_and_rename, remove_after, write_file_atomic}
use est.Store.Atomic.Writers.{Write, Stage, advance_write}

module _ (w : Write) where
  -- So many steps of one writer.
  abbrev pub write_times : ℕ → Stage → Disk → Stage × Disk
  write_times zero stage d = (stage, d)
  write_times (suc n) stage d =
      let (stage', d') = advance_write w stage d in write_times n stage' d'

  -- Seven steps of a writer, with no other between them, give the result of the function that runs
  -- as a whole, and the same states of the disk on the way.
  pub making_directory-write_times :
      (d : Disk)
      → let (r, d') = write_file_atomic w.faults w.path w.bytes w.perm d in
        write_times 7 Stage.making_directory d ≡ (Stage.returned r, d')
  unfolding advance_write write_file_atomic fill_and_rename remove_after
  making_directory-write_times d = ground arith
