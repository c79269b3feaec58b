-- ===== src/Store/Atomic/Writers/Serial.antt =====
-- What every order of the writers' steps keeps true of the files.
use est.Common.{
  ℕ, ◌+◌, ◌≡◌, ◌≢◌, ◌⊎◌, sym, subst, refl, ◌∙◌, arith, if◌then◌else◌, ◌==◌, ==_iff, set_at,
  set_at_self, set_at-ne, List, [], ◌∷◌, Bytes, All, Bool-cases, inl, inr, str_eq, str_eq_iff, ok,
}
use est.Fs.{Files, update}
use est.Store.Atomic.Laws.{start, str_eq_self, str_eq_ne}
use est.Store.Atomic.Writers.{
  Write, temp_name, Stage, advance_write, Writers, take_step, take_steps,
}
use est.Store.Atomic.Writers.Sound.{
  complete, is_renamed, HasTemp, renames, advance_write-HasTemp, advance_write-ne,
  now-advance_write, advance_write-is_renamed, advance_write-past,
}

-- No two writers have one temp file, and no temp file is a target.
pub record AreApart (write : ℕ → Write) : Type 0 where
  pub temps : (i j : ℕ) → i ≢ j → temp_name (write i) ≢ temp_name (write j)
  pub targets : (i j : ℕ) → (write i).path ≢ temp_name (write j)

-- How often a writer stands in a list.
abbrev pub times : ℕ → List ℕ → ℕ
times i [] = 0
times i (j ∷ l) = (if j == i then 1 else 0) + times i l

module _ (write : ℕ → Write) (before : Files) where
  -- The complete files of the writers, put one after the other: the last stands in front.
  abbrev pub put_all : List ℕ → Files
  put_all [] = before
  put_all (i ∷ order) = update (write i).path (complete (write i)) (put_all order)

  -- A path that is no temp file holds its old file or the complete file of a writer to it.
  abbrev pub AllOldOrComplete : Files → Type 0
  AllOldOrComplete f =
      (q : Bytes)
      → ((i : ℕ) → temp_name (write i) ≢ q)
      → (f q ≡ before q) ⊎ ((i : ℕ) × ((write i).path ≡ q) × (f q ≡ complete (write i)))

  -- The files are as if the writers that have renamed had each put its complete file in one step,
  -- one after the other. Each of them is in the list once, and the others are not in it.
  pub record IsSerial (s : Writers) : Type 0 where
    pub order : List ℕ
    pub once : (i : ℕ) → times i order ≡ (if is_renamed (s.stage i) then 1 else 0)
    pub files : (q : Bytes) → ((i : ℕ) → temp_name (write i) ≢ q) → s.disk.now q ≡ put_all order q
    pub temps :
        (i : ℕ)
        → HasTemp
            (write i)
            (before (temp_name (write i)))
            (s.stage i)
            (s.disk.now (temp_name (write i)))
    pub seen : All AllOldOrComplete s.disk.past

  put_all-AllOldOrComplete : (order : List ℕ) → AllOldOrComplete (put_all order)
  put_all-AllOldOrComplete [] q apart = inl refl
  put_all-AllOldOrComplete (i ∷ order) q apart = elim (Bool-cases (str_eq (write i).path q)) [
    | inl e ↦ inr (i, (str_eq_iff _ _).0 e, rw e refl)
    | inr e ↦ rw e (put_all-AllOldOrComplete order q apart)
  ]

  now-AllOldOrComplete : (s : Writers) → IsSerial s → AllOldOrComplete s.disk.now
  now-AllOldOrComplete s h q apart = rw (h.files q apart) (put_all-AllOldOrComplete h.order q apart)

  abbrev pub start_writers : Writers
  start_writers = record { disk = start before; stage = λ i. Stage.making_directory }

  start_writers-IsSerial : IsSerial start_writers
  start_writers-IsSerial = record {
    order = [];
    once = λ i. refl;
    files = λ q apart. refl;
    temps = λ i. refl;
    seen = tt;
  }

  module _ (apart : AreApart write) where
    -- The other temp files stay, and so does how far the other writers are.
    others :
        (s : Writers) (i j : ℕ) (stage : Stage)
        → IsSerial s
        → i ≢ j
        → HasTemp
            (write j)
            (before (temp_name (write j)))
            (set_at i stage s.stage j)
            ((advance_write (write i) (s.stage i) s.disk).1.now (temp_name (write j)))
    others s i j stage h other =
        rw
          (
            set_at-ne i j stage s.stage other,
            advance_write-ne (write i) (s.stage i) s.disk (temp_name (write j))
                (apart.temps i j other) (apart.targets i j),
          )
          (h.temps j)

    own :
        (s : Writers) (i j : ℕ)
        → IsSerial s
        → i ≡ j
        → let (stage, d) = advance_write (write i) (s.stage i) s.disk in
          HasTemp
            (write j)
            (before (temp_name (write j)))
            (set_at i stage s.stage j)
            (d.now (temp_name (write j)))
    own s i j h same =
        let (stage, d) = advance_write (write i) (s.stage i) s.disk in
        subst
          (λ k.
            HasTemp (write k) (before (temp_name (write k))) (set_at i stage s.stage k)
              (d.now (temp_name (write k))))
          same
          (rw (set_at_self i stage s.stage)
            (advance_write-HasTemp (write i) _ (s.stage i) s.disk (h.temps i)))

    take_step-IsSerial : (s : Writers) (i : ℕ) → IsSerial s → IsSerial (take_step write s i)
    unfolding take_step
    take_step-IsSerial s i h =
        let w = write i in
        let stage = s.stage i in
        let goes_on = advance_write-is_renamed w stage s.disk in
        record {
          order = if renames w stage s.disk then i ∷ h.order else h.order;
          once = λ j. ground (arith, h.once j, ==_iff i j, goes_on);
          files = λ q free. ground (
            arith,
            h.files q free,
            now-advance_write w (before (temp_name w)) stage s.disk q (h.temps i) (free i),
          );
          temps = λ j. elim (Bool-cases (i == j)) [
            | inl e ↦ own s i j h ((==_iff i j).0 e)
            | inr e ↦ others s i j _ h (λ same. cc (e, (==_iff i j).1 same))
          ];
          seen = elim (advance_write-past w stage s.disk) [
            | inl e ↦ rw e h.seen
            | inr e ↦ rw e (now-AllOldOrComplete s h, h.seen)
          ];
        }

    from : (s : Writers) (schedule : List ℕ) → IsSerial s → IsSerial (take_steps write s schedule)
    from s [] h = h
    from s (i ∷ schedule) h = from (take_step write s i) schedule (take_step-IsSerial s i h)

    -- After any order of the steps of writers that have no temp file in common, the files that are no
    -- temp files are as if each writer whose rename was done had put its complete file in one step.
    -- Under the name of the temp file of a writer that has returned stands what stood there at the
    -- start, but where a writer with an error could not remove its temp file.
    pub take_steps-IsSerial :
        (schedule : List ℕ) → IsSerial (take_steps write start_writers schedule)
    take_steps-IsSerial schedule = from start_writers schedule start_writers-IsSerial

    -- In every state of the disk on the way a path that is no temp file holds its old file or the
    -- complete file of one of the writers to it, whatever the order of the steps and their errors.
    pub take_steps-AllOldOrComplete :
        (schedule : List ℕ)
        → let d = (take_steps write start_writers schedule).disk in
          All AllOldOrComplete (d.now ∷ d.past)
    take_steps-AllOldOrComplete schedule =
        let h = take_steps-IsSerial schedule in
        (now-AllOldOrComplete (take_steps write start_writers schedule) h, h.seen)

    put_all-sole :
        (i : ℕ) (order : List ℕ)
        → ((j : ℕ) → j ≢ i → (write j).path ≢ (write i).path)
        → times i order ≢ 0
        → put_all order (write i).path ≡ complete (write i)
    put_all-sole i [] sole h = absurd (h refl)
    put_all-sole i (j ∷ order) sole h = elim (Bool-cases (j == i)) [
      | inl e ↦ rw ((==_iff j i).0 e, str_eq_self (write i).path) refl
      | inr e ↦
          rw
            (str_eq_ne (write j).path (write i).path (sole j (λ same. cc (e, (==_iff j i).1 same))))
            (put_all-sole i order sole (ground (arith, e, h)))
    ]

    -- The file of a writer that has returned without an error is there, if no other writes the path.
    pub now-take_steps :
        (schedule : List ℕ) (i : ℕ)
        → ((j : ℕ) → j ≢ i → (write j).path ≢ (write i).path)
        → let s = take_steps write start_writers schedule in
          s.stage i ≡ Stage.returned (ok tt) → s.disk.now (write i).path ≡ complete (write i)
    now-take_steps schedule i sole done =
        let h = take_steps-IsSerial schedule in
        h.files (write i).path (λ j e. apart.targets i j (sym e))
        ∙ put_all-sole i h.order sole (ground (arith, h.once i, done))
