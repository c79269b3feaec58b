-- ===== src/Ca/Openssl/Lock/Serial.antt =====
-- Under the lock, the commands run one after the other.
use est.Common.{
  ℕ, ◌≡◌, ◌≢◌, ◌⊎◌, true, false, List, [], ◌∷◌, Option, none, some, Bytes, Error, ◌==◌,
  if◌then◌else◌,
}
use est.Ca.Openssl.{OpensslCa, openssl_command}
use est.Ca.Openssl.Lock.{Command, command_result, Call, LockState}

module _ (C : Command) (c : OpensslCa) (path : ℕ → Bytes × Bytes) where
  -- A process alone on the directory: from its start, some of its steps.
  pub data Works (d : C.Database) (p : C.Process) : C.Process → C.Database → Type 0 where
    start : Works d p p d
    step :
        {q : C.Process} {e : C.Database}
        → Works d p q e
        → C.exited q ≡ none
        → Works d p (C.work q e).0 (C.work q e).1

  -- The process of the command for the files of a call.
  abbrev pub process : ℕ → C.Process
  process i = C.spawn (openssl_command c (path i).0 (path i).1)

  -- Whole runs, each on the directory that the one before it left, the last in front.
  pub data RunsInTurn (d : C.Database) : List (ℕ × Option Error) → C.Database → Type 0 where
    no_run : RunsInTurn d [] d
    one_more :
        {l : List (ℕ × Option Error)} {e f : C.Database} {q : C.Process} (i : ℕ)
        {failed : Option Error}
        → RunsInTurn d l e
        → Works e (process i) q f
        → C.exited q ≡ some failed
        → RunsInTurn d ((i, failed) ∷ l) f

  -- The last run of a call in a history.
  abbrev pub outcome : ℕ → List (ℕ × Option Error) → Option (Option Error)
  outcome i [] = none
  outcome i ((j, failed) ∷ l) = if j == i then some failed else outcome i l

  -- A call that does not run, by its outcome.
  abbrev pub settled : ℕ → Option (Option Error) → Call C
  settled i none = Call.locking (path i).0 (path i).1
  settled i (some failed) = Call.returned (command_result failed)

  abbrev pub IsAsIn : List (ℕ × Option Error) → LockState C → ℕ → Type 0
  IsAsIn l s i = s.call i ≡ settled i (outcome i l)

  -- Nobody holds the lock, and the directory is what the runs in the history leave.
  pub record IsFree (d : C.Database) (s : LockState C) : Type 0 where
    pub history : List (ℕ × Option Error)
    pub locked : s.locked ≡ false
    pub runs : RunsInTurn d history s.database
    pub calls : (i : ℕ) → IsAsIn history s i

  -- One call holds the lock; its process alone has worked on what the runs before it left.
  pub record IsHeld (d : C.Database) (s : LockState C) : Type 0 where
    pub history : List (ℕ × Option Error)
    pub locked : s.locked ≡ true
    pub before : C.Database
    pub runs : RunsInTurn d history before
    pub holder : ℕ
    pub fresh : outcome holder history ≡ none
    pub process_now : C.Process
    pub runs_now : s.call holder ≡ Call.running process_now
    pub works : Works before (process holder) process_now s.database
    pub calls : (i : ℕ) → i ≢ holder → IsAsIn history s i

  abbrev pub IsSerial : C.Database → LockState C → Type 0
  IsSerial d s = IsFree d s ⊎ IsHeld d s
