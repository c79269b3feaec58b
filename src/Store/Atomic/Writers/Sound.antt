-- ===== src/Store/Atomic/Writers/Sound.antt =====
-- What a step of a writer does to the files, its own and those of others.
use est.Common.{
  ◌≡◌, ◌≢◌, ◌⊎◌, sym, ◌∙◌, arith, Bool, true, false, not, ◌&&◌, if◌then◌else◌, [], ◌∷◌, Option,
  none, some, Bytes, ok, err, Option-cases, Bool-cases, str_eq, inl, inr, str_eq_iff,
}
use est.Fs.{File, Disk, remove_file}
use est.Store.Atomic.{create_temp, write_temp, chmod_temp, rename_temp}
use est.Store.Atomic.Laws.{str_eq_ne, str_eq_self, temp_path-ne}
use est.Store.Atomic.Writers.{Write, temp_name, Stage, advance_write}

-- The writer's file as it is meant to be.
abbrev pub complete : Write → Option File
complete w = some (record { content = w.bytes; perm = w.perm })

-- The rename has been done.
abbrev pub is_renamed : Stage → Bool
is_renamed (Stage.removing (ok _)) = true
is_renamed (Stage.returned (ok _)) = true
is_renamed _ = false

-- The temp file of a writer by how far it is; `before` stood under its name at the start, and
-- `now` stands there.
abbrev pub HasTemp : Write → Option File → Stage → Option File → Type 0
HasTemp w before Stage.making_directory now = now ≡ before
HasTemp w before Stage.creating now = now ≡ before
HasTemp w before Stage.writing now =
    (before ≡ none) × (now ≡ some (record { content = []; perm = 0o600 }))
HasTemp w before Stage.closing now =
    (before ≡ none) × (now ≡ some (record { content = w.bytes; perm = 0o600 }))
HasTemp w before Stage.changing_mode now =
    (before ≡ none) × (now ≡ some (record { content = w.bytes; perm = 0o600 }))
HasTemp w before Stage.renaming now = (before ≡ none) × (now ≡ complete w)
HasTemp w before (Stage.removing (ok _)) now = (before ≡ none) × (now ≡ none)
HasTemp w before (Stage.removing (err e)) now = before ≡ none
HasTemp w before (Stage.returned (ok _)) now = now ≡ before
HasTemp w before (Stage.returned (err e)) now = w.faults.remove ≡ none → now ≡ before

module _ (w : Write) where
  pub advance_write-HasTemp :
      (before : Option File) (stage : Stage) (d : Disk)
      → HasTemp w before stage (d.now (temp_name w))
      → let (stage', d') = advance_write w stage d in HasTemp w before stage' (d'.now (temp_name w))
  unfolding advance_write create_temp write_temp chmod_temp rename_temp remove_file
  advance_write-HasTemp before Stage.making_directory d h = elim (Option-cases w.faults.mkdir_all) [
    | inl e ↦ rw e h
    | inr (x, e) ↦ rw e (λ _. h)
  ]
  advance_write-HasTemp before Stage.creating d h = elim (Option-cases w.faults.create_temp) [
    | inr (x, e) ↦ rw e (λ _. h)
    | inl e ↦ elim (Option-cases (d.now (temp_name w))) [
      | inr (f, found) ↦ rw (e, found) (λ _. found ∙ (sym found ∙ h))
      | inl free ↦ rw (e, free) (sym h ∙ free, ground (arith, str_eq_self (temp_name w)))
    ]
  ]
  advance_write-HasTemp before Stage.writing d h = elim (Option-cases w.faults.write) [
    | inr (x, e) ↦ rw e h.0
    | inl e ↦ rw (e, h.1) (h.0, ground (arith, str_eq_self (temp_name w)))
  ]
  advance_write-HasTemp before Stage.closing d h = elim (Option-cases w.faults.close) [
    | inl e ↦ rw e h
    | inr (x, e) ↦ rw e h.0
  ]
  advance_write-HasTemp before Stage.changing_mode d h = elim (Option-cases w.faults.chmod) [
    | inr (x, e) ↦ rw e h.0
    | inl e ↦ rw (e, chmod_temp, h.1) (h.0, ground (arith, str_eq_self (temp_name w)))
  ]
  advance_write-HasTemp before Stage.renaming d h = elim (Option-cases w.faults.rename) [
    | inr (x, e) ↦ rw e h.0
    | inl e ↦ rw (e, rename_temp, h.1) (h.0, ground (arith, str_eq_self (temp_name w)))
  ]
  advance_write-HasTemp before (Stage.removing (ok _)) d h = elim (Option-cases w.faults.remove) [
    | inl e ↦ ground (arith, e, h.0, str_eq_self (temp_name w))
    | inr (x, e) ↦ ground (arith, e, h.0, h.1)
  ]
  advance_write-HasTemp before (Stage.removing (err _)) d h =
      λ gone. ground (arith, gone, h, str_eq_self (temp_name w))
  advance_write-HasTemp before (Stage.returned (ok _)) d h = h
  advance_write-HasTemp before (Stage.returned (err _)) d h = h

  -- A step changes the temp file and the target alone.
  pub advance_write-ne :
      (stage : Stage) (d : Disk) (q : Bytes)
      → temp_name w ≢ q
      → w.path ≢ q
      → (advance_write w stage d).1.now q ≡ d.now q
  unfolding advance_write create_temp write_temp chmod_temp rename_temp remove_file
  advance_write-ne stage d q other other' =
      ground (arith, str_eq_ne (temp_name w) q other, str_eq_ne w.path q other')

  -- A step changes the target if it renames, and then to the complete file.
  pub advance_write-path :
      (before : Option File) (stage : Stage) (d : Disk)
      → HasTemp w before stage (d.now (temp_name w))
      → let (stage', d') = advance_write w stage d in
        d'.now w.path
        ≡ (if is_renamed stage' && not (is_renamed stage) then complete w else d.now w.path)
  unfolding advance_write create_temp write_temp chmod_temp rename_temp remove_file
  advance_write-path before stage d h =
      ground (
        arith,
        h,
        str_eq_ne (temp_name w) w.path (temp_path-ne w.faults w.path),
        str_eq_self w.path,
      )

  -- The step renames the temp file.
  abbrev pub renames : Stage → Disk → Bool
  renames stage d = is_renamed (advance_write w stage d).0 && not (is_renamed stage)

  pub now-advance_write :
      (before : Option File) (stage : Stage) (d : Disk) (q : Bytes)
      → HasTemp w before stage (d.now (temp_name w))
      → temp_name w ≢ q
      → (advance_write w stage d).1.now q
        ≡ (if renames stage d && str_eq w.path q then complete w else d.now q)
  now-advance_write before stage d q h other = elim (Bool-cases (str_eq w.path q)) [
    | inl e ↦
        let same = (str_eq_iff w.path q).0 e in
        ground (arith, e, same, advance_write-path before stage d h)
    | inr e ↦
        ground (
          arith,
          e,
          advance_write-ne stage d q other (λ same. cc (e, (str_eq_iff w.path q).1 same)),
        )
  ]

  -- A rename is not undone.
  pub advance_write-is_renamed :
      (stage : Stage) (d : Disk)
      → is_renamed stage ≡ true
      → is_renamed (advance_write w stage d).0 ≡ true
  unfolding advance_write
  advance_write-is_renamed stage d h = ground (arith, h)

  -- A step adds at most the state that it leaves.
  pub advance_write-past :
      (stage : Stage) (d : Disk)
      → let d' = (advance_write w stage d).1 in (d'.past ≡ d.past) ⊎ (d'.past ≡ d.now ∷ d.past)
  unfolding advance_write create_temp write_temp chmod_temp rename_temp remove_file
  advance_write-past stage d = ground arith
