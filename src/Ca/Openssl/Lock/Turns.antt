-- ===== src/Ca/Openssl/Lock/Turns.antt =====
-- What every order of the goroutines' turns keeps true of the lock.
use est.Common.{
  ℕ, ◌≡◌, ◌≢◌, refl, sym, ap, subst, ◌∙◌, arith, inl, inr, true, false, Bool-cases, Option-cases,
  List, [], ◌∷◌, Option, none, some, Bytes, Error, set_at, ◌==◌, ==_iff,
}
use est.Ca.Openssl.{OpensslCa}
use est.Ca.Openssl.Lock.{Command, command_result, Call, LockState, take_turn, take_turns}
use est.Ca.Openssl.Lock.Serial.{
  Works, process, RunsInTurn, outcome, settled, IsAsIn, IsFree, IsHeld, IsSerial,
}

module _ (C : Command) (c : OpensslCa) (path : ℕ → Bytes × Bytes) where
  -- A call that has returned, or that waits for a lock that is taken, does nothing.
  stays :
      (s : LockState C) (l : List (ℕ × Option Error)) (i : ℕ)
      → IsAsIn C c path l s i
      → (outcome C c path i l ≡ none → s.locked ≡ true)
      → take_turn C c s i ≡ s
  unfolding take_turn
  stays s l i here taken = elim (Option-cases (outcome C c path i l)) [
    | inl e ↦ rw (here, e, taken e, take_turn) refl
    | inr (failed, e) ↦ rw (here, e, take_turn) refl
  ]

  -- The other calls are as they were.
  others : (s : LockState C) (i j : ℕ) (now : Call C) → j ≢ i → set_at i now s.call j ≡ s.call j
  others s i j now other = ground (arith, ==_iff i j, other)

  -- The call that takes the lock.
  locks :
      (d : C.Database) (s : LockState C) (i : ℕ) (h : IsFree C c path d s)
      → outcome C c path i h.history ≡ none
      → IsHeld C c path d (take_turn C c s i)
  unfolding take_turn
  locks d s i h first =
      let here : s.call i ≡ Call.locking (path i).0 (path i).1 =
        h.calls i ∙ ap (settled C c path i) first in
      let now : Call C = Call.running (process C c path i) in
      rw (here, h.locked, take_turn)
        (record {
          history = h.history;
          locked = refl;
          before = s.database;
          runs = h.runs;
          holder = i;
          fresh = first;
          process_now = process C c path i;
          runs_now = ground (arith, ==_iff i i);
          works = Works.start;
          calls = λ j other. others s i j now other ∙ h.calls j;
        })

  -- The holder's process works, or has ended and gives the lock back.
  holder_works :
      (d : C.Database) (s : LockState C) (h : IsHeld C c path d s)
      → C.exited h.process_now ≡ none
      → IsHeld C c path d (take_turn C c s h.holder)
  unfolding take_turn
  holder_works d s h goes =
      let now : Call C = Call.running (C.work h.process_now s.database).0 in
      rw (h.runs_now, goes, take_turn)
        (record {
          history = h.history;
          locked = h.locked;
          before = h.before;
          runs = h.runs;
          holder = h.holder;
          fresh = h.fresh;
          process_now = (C.work h.process_now s.database).0;
          runs_now = ground (arith, ==_iff h.holder h.holder);
          works = Works.step h.works goes;
          calls = λ j other. others s h.holder j now other ∙ h.calls j other;
        })

  holder_returns :
      (d : C.Database) (s : LockState C) (h : IsHeld C c path d s) {failed : Option Error}
      → C.exited h.process_now ≡ some failed
      → IsFree C c path d (take_turn C c s h.holder)
  unfolding take_turn
  holder_returns d s h {failed} ended =
      let now : Call C = Call.returned (command_result failed) in
      let i = h.holder in
      rw (h.runs_now, ended, take_turn)
        (record {
          history = (i, failed) ∷ h.history;
          locked = refl;
          runs = RunsInTurn.one_more i h.runs h.works ended;
          calls = λ j. elim (Bool-cases (i == j)) [
            | inl own ↦ ground (arith, own)
            | inr other ↦ ground (arith, other, ==_iff i j, h.calls j)
          ];
        })

  take_turn-IsSerial :
      (d : C.Database) (s : LockState C) (i : ℕ)
      → IsSerial C c path d s
      → IsSerial C c path d (take_turn C c s i)
  take_turn-IsSerial d s i (inl h) = elim (Option-cases (outcome C c path i h.history)) [
    | inl first ↦ inr (locks d s i h first)
    | inr (failed, e) ↦
        let same = stays s h.history i (h.calls i) (λ f. cc (e, f)) in
        inl (subst (IsFree C c path d) (sym same) h)
  ]
  take_turn-IsSerial d s i (inr h) = elim (Bool-cases (h.holder == i)) [
    | inl own ↦
        let is : h.holder ≡ i = (==_iff h.holder i).0 own in
        subst (λ k. IsSerial C c path d (take_turn C c s k)) is
          (elim (Option-cases (C.exited h.process_now)) [
            | inl goes ↦ inr (holder_works d s h goes)
            | inr (failed, ended) ↦ inl (holder_returns d s h ended)
          ])
    | inr other ↦
        let differ : i ≢ h.holder = ground (arith, other, ==_iff h.holder i) in
        let same = stays s h.history i (h.calls i differ) (λ _. h.locked) in
        inr (subst (IsHeld C c path d) (sym same) h)
  ]

  pub take_turns-IsSerial :
      (s : LockState C) (turns : List ℕ)
      → s.locked ≡ false
      → ((i : ℕ) → s.call i ≡ Call.locking (path i).0 (path i).1)
      → IsSerial C c path s.database (take_turns C c s turns)
  take_turns-IsSerial s turns free waiting =
      go s turns
        (inl (record { history = []; locked = free; runs = RunsInTurn.no_run; calls = waiting }))
    where
      go :
          (t : LockState C) (turns : List ℕ)
          → IsSerial C c path s.database t
          → IsSerial C c path s.database (take_turns C c t turns)
      go t [] h = h
      go t (i ∷ turns) h = go (take_turn C c t i) turns (take_turn-IsSerial s.database t i h)
