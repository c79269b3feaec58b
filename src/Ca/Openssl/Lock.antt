-- ===== src/Ca/Openssl/Lock.antt =====
-- The lock of internal/ca/openssl/openssl.go: calls of runOpenSSLCA in several goroutines, over a
-- command that is itself a sequence of steps on the CA directory's index.txt and serial.
pub mod Serial
pub mod Turns
pub mod Returns
use mathlib.Core.List.{foldl}
use est.Common.{
  ℕ, Bool, true, false, List, Option, none, some, Bytes, ascii, Error, wrap, Result, ok, err,
  set_at, if◌then◌else◌,
}
use est.Ca.Openssl.{OpensslCa, openssl_command}

-- A command: what its runs share, a process that is started with the words of the command line, one
-- step of it, and the error of `CombinedOutput` once it has ended.
pub record Command : Type 1 where
  pub Database : Type 0
  pub Process : Type 0
  pub spawn : List Bytes → Process
  pub work : Process → Database → Process × Database
  pub exited : Process → Option (Option Error)

-- How a call of runOpenSSLCA returns.
unfoldable pub command_result : Option Error → Result (Unit {0})
command_result none = ok tt
command_result (some e) = err (wrap (ascii "openssl: openssl ca failed") e)

module _ (C : Command) where
  -- A call, with the paths of its two files: it is before `c.mu.Lock`, or its command runs, or it has
  -- returned.
  pub data Call : Type 0 where
    locking : Bytes → Bytes → Call
    running : C.Process → Call
    returned : Result (Unit {0}) → Call

  -- `mu`, the CA directory, and the goroutines by number.
  pub record LockState : Type 0 where
    pub locked : Bool
    pub database : C.Database
    pub call : ℕ → Call

  -- A goroutine goes on, if it can: one that finds the lock taken waits.
  unfoldable pub take_turn : OpensslCa → LockState → ℕ → LockState
  take_turn c s i = elim (s.call i) [
    | locking csr_path cert_path ↦ if s.locked then s else record s {
      locked = true;
      call = set_at i (running (C.spawn (openssl_command c csr_path cert_path))) s.call;
    }
    | running p ↦ elim (C.exited p) [
      | none ↦
          let (p, database) = C.work p s.database in
          record s { database = database; call = set_at i (running p) s.call }
      | some failed ↦ record s {
        locked = false;
        call = set_at i (returned (command_result failed)) s.call;
      }
    ]
    | returned result ↦ s
  ]

  -- The turns of the goroutines, in any order.
  abbrev pub take_turns : OpensslCa → LockState → List ℕ → LockState
  take_turns c = foldl (take_turn c)
