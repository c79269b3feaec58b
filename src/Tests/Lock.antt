-- ===== src/Tests/Lock.antt =====
-- Two calls of a command that reads the next serial in one step and writes it back in another.
use est.Common.{
  ◌≡◌, refl, arith, ℕ, ◌+◌, ◌<◌, false, List, [], ◌∷◌, Option, none, some, Bytes, Error, ascii,
}
use est.Ca.Openssl.{openssl_command}
use est.Ca.Openssl.Lock.{Command, Call, LockState, command_result, take_turn, take_turns}
use est.Ca.Openssl.Lock.Returns.{Ends, CanReturn, take_turns-CanReturn}
use est.Tests.Openssl.{openssl_ca}

data Progress : Type 0 where
  started : Progress
  has_read : ℕ → Progress
  ended : Progress

abbrev work : Progress → ℕ → Progress × ℕ
work started serial = (has_read serial, serial)
work (has_read n) serial = (ended, n + 1)
work ended serial = (ended, serial)

abbrev exited : Progress → Option (Option Error)
exited ended = some none
exited p = none

abbrev command : Command
command = record {
  Database = ℕ;
  Process = Progress;
  spawn = λ words. started;
  work = work;
  exited = exited;
}

abbrev path : ℕ → Bytes × Bytes
path i = (ascii "estd-csr.pem", ascii "estd-cert.pem")

abbrev two_calls : LockState command
two_calls = record { locked = false; database = 7; call = λ i. Call.locking (path i).0 (path i).1 }

abbrev turns : List ℕ
turns = 0 ∷ 1 ∷ 0 ∷ 1 ∷ 0 ∷ 1 ∷ 0 ∷ 1 ∷ 1 ∷ 1 ∷ 1 ∷ []

no_serial_is_lost : (take_turns command openssl_ca two_calls turns).database ≡ 9
unfolding take_turn command_result openssl_command ascii
no_serial_is_lost = refl

abbrev left : Progress → ℕ
left started = 2
left (has_read n) = 1
left ended = 0

command-Ends : Ends command
command-Ends = record { left = left; work_left = work_left }
  where
    work_left : (p : Progress) (serial : ℕ) → exited p ≡ none → left (work p serial).0 < left p
    work_left started serial e = omega arith
    work_left (has_read n) serial e = omega arith
    work_left ended serial e = cc

take_turns-CanReturn_example :
    CanReturn command-Ends openssl_ca (take_turns command openssl_ca two_calls (0 ∷ 1 ∷ 0 ∷ [])) 1
take_turns-CanReturn_example =
    take_turns-CanReturn command-Ends openssl_ca path two_calls (0 ∷ 1 ∷ 0 ∷ []) 1 refl (λ i. refl)
