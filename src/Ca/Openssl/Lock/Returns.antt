-- ===== src/Ca/Openssl/Lock/Returns.antt =====
-- No order of turns leaves a call of runOpenSSLCA that can never return.
use est.Common.{
  ℕ, zero, suc, ◌<◌, ◌≡◌, ◌≢◌, refl, sym, ap, subst, ◌∙◌, arith, inl, inr, true, false, Bool-cases,
  Option-cases, List, [], ◌∷◌, ◌++◌, Option, none, some, Bytes, Error, Result, set_at, set_at_self,
  set_at-ne, ◌==◌, ==_iff,
}
use est.Ca.Openssl.{OpensslCa, openssl_command}
use est.Ca.Openssl.Lock.{Command, command_result, Call, LockState, take_turn, take_turns}
use est.Ca.Openssl.Lock.Serial.{outcome, settled, IsSerial}
use est.Ca.Openssl.Lock.Turns.{take_turns-IsSerial}

-- Each process ends: so many steps of work are left at most.
pub record Ends (C : Command) : Type 0 where
  pub left : C.Process → ℕ
  pub work_left :
      (p : C.Process) (database : C.Database)
      → C.exited p ≡ none
      → left (C.work p database).0 < left p

module _ {C : Command} (E : Ends C) (c : OpensslCa) where
  -- A call has returned, in a state that differs from another in this call alone.
  record HasReturned (s : LockState C) (i : ℕ) (t : LockState C) : Type 0 where
    result : Result (Unit {0})
    call : t.call i ≡ Call.returned result
    locked : t.locked ≡ false
    others : (j : ℕ) → j ≢ i → t.call j ≡ s.call j

  -- The three turns that change something.
  locks :
      (s : LockState C) (i : ℕ) (csr_path cert_path : Bytes)
      → s.call i ≡ Call.locking csr_path cert_path
      → s.locked ≡ false
      → take_turn C c s i ≡ record s {
        locked = true;
        call = set_at i (Call.running (C.spawn (openssl_command c csr_path cert_path))) s.call;
      }
  unfolding take_turn
  locks s i csr_path cert_path now free = rw (now, free, take_turn) refl

  works :
      (s : LockState C) (i : ℕ) (p : C.Process)
      → s.call i ≡ Call.running p
      → C.exited p ≡ none
      → take_turn C c s i ≡ record s {
        database = (C.work p s.database).1;
        call = set_at i (Call.running (C.work p s.database).0) s.call;
      }
  unfolding take_turn
  works s i p now goes = rw (now, goes, take_turn) refl

  returns :
      (s : LockState C) (i : ℕ) (p : C.Process) (failed : Option Error)
      → s.call i ≡ Call.running p
      → C.exited p ≡ some failed
      → take_turn C c s i ≡ record s {
        locked = false;
        call = set_at i (Call.returned (command_result failed)) s.call;
      }
  unfolding take_turn
  returns s i p failed now ended = rw (now, ended, take_turn) refl

  -- The holder of the lock returns if it goes on.
  finish :
      (fuel : ℕ) (s : LockState C) (i : ℕ) (p : C.Process)
      → s.call i ≡ Call.running p
      → s.locked ≡ true
      → E.left p < fuel
      → (turns : List ℕ) × HasReturned s i (take_turns C c s turns)
  finish zero s i p now held few = absurd (omega (arith, few))
  finish (suc fuel) s i p now held few = elim (Option-cases (C.exited p)) [
    | inr (failed, ended) ↦ (
      i ∷ [],
      rw (returns s i p failed now ended) (record {
        result = command_result failed;
        call = set_at_self i _ s.call;
        locked = refl;
        others = λ j other. set_at-ne i j _ s.call (λ e. other (sym e));
      }),
    )
    | inl goes ↦
        let q = (C.work p s.database).0 in
        let next : LockState C = record s {
          database = (C.work p s.database).1;
          call = set_at i (Call.running q) s.call;
        } in
        let (turns, h) =
          finish fuel next i q (set_at_self i (Call.running q) s.call) held
            (omega (arith, few, E.work_left p s.database goes)) in
        (
          i ∷ turns,
          rw (works s i p now goes) (record {
            result = h.result;
            call = h.call;
            locked = h.locked;
            others = λ j other.
                h.others j other ∙ set_at-ne i j (Call.running q) s.call (λ e. other (sym e));
          }),
        )
  ]

  -- Some turns let a call return.
  abbrev pub CanReturn : LockState C → ℕ → Type 0
  CanReturn s i =
      (turns : List ℕ) × (r : Result (Unit {0})) × ((take_turns C c s turns).call i
        ≡ Call.returned r)

  -- A call that waits for a free lock returns if it goes on.
  lock_and_finish :
      (s : LockState C) (i : ℕ) (csr_path cert_path : Bytes)
      → s.call i ≡ Call.locking csr_path cert_path
      → s.locked ≡ false
      → CanReturn s i
  lock_and_finish s i csr_path cert_path now free =
      let p = C.spawn (openssl_command c csr_path cert_path) in
      let next : LockState C = record s {
        locked = true;
        call = set_at i (Call.running p) s.call;
      } in
      let (turns, h) =
        finish (suc (E.left p)) next i p (set_at_self i (Call.running p) s.call) refl
          (omega arith) in
      let done = λ (t : LockState C). (take_turns C c t turns).call i ≡ Call.returned h.result in
      (i ∷ turns, h.result, subst done (sym (locks s i csr_path cert_path now free)) h.call)

  take_turns-append :
      (s : LockState C) (a b : List ℕ)
      → take_turns C c s (a ++ b) ≡ take_turns C c (take_turns C c s a) b
  take_turns-append s [] b = refl
  take_turns-append s (i ∷ a) b = take_turns-append (take_turn C c s i) a b

  module _ (path : ℕ → Bytes × Bytes) where
    -- A call that does not run has returned, or returns after it has waited for a free lock.
    from_settled :
        (s : LockState C) (i : ℕ) (l : List (ℕ × Option Error))
        → s.call i ≡ settled C c path i (outcome C c path i l)
        → s.locked ≡ false
        → CanReturn s i
    from_settled s i l now free = elim (Option-cases (outcome C c path i l)) [
      | inl e ↦ lock_and_finish s i (path i).0 (path i).1 (now ∙ ap (settled C c path i) e) free
      | inr (failed, e) ↦ ([], command_result failed, now ∙ ap (settled C c path i) e)
    ]

    from_serial : (d : C.Database) (s : LockState C) (i : ℕ) → IsSerial C c path d s → CanReturn s i
    from_serial d s i (inl h) = from_settled s i h.history (h.calls i) h.locked
    from_serial d s i (inr h) =
        let p = h.process_now in
        let (first, f) = finish (suc (E.left p)) s h.holder p h.runs_now h.locked (omega arith) in
        elim (Bool-cases (i == h.holder)) [
          | inl own ↦ (
            first,
            f.result,
            ap (take_turns C c s first).call ((==_iff i h.holder).0 own) ∙ f.call,
          )
          | inr other ↦
              let differ : i ≢ h.holder = λ e. cc (other, (==_iff i h.holder).1 e) in
              let now = f.others i differ ∙ h.calls i differ in
              let (then_, r, e) = from_settled (take_turns C c s first) i h.history now f.locked in
              (
                first ++ then_,
                r,
                ap (λ (t : LockState C). t.call i) (take_turns-append s first then_) ∙ e,
              )
        ]

    -- For calls that all start when the lock is free, and commands that end: whatever turns the
    -- goroutines have taken, there are turns after which a given call has returned.
    pub take_turns-CanReturn :
        (s : LockState C) (turns : List ℕ) (i : ℕ)
        → s.locked ≡ false
        → ((j : ℕ) → s.call j ≡ Call.locking (path j).0 (path j).1)
        → CanReturn (take_turns C c s turns) i
    take_turns-CanReturn s turns i free waiting =
        from_serial s.database (take_turns C c s turns) i
          (take_turns-IsSerial C c path s turns free waiting)
