-- ===== src/Tests/Writers.antt =====
-- Writers that race: one puts a certificate, all the others write one other path.
use est.Common.{
  ℕ, zero, suc, str_eq, ◌≡◌, ◌≢◌, refl, ap, arith, pos, [], ◌∷◌, none, List, All, ascii, length,
  length-append, ok, context, ◌++◌,
}
use est.Hex.{hex, hex_loop, hex_digit, pad_zeros}
use est.Store.Atomic.{create_temp, write_temp, chmod_temp, rename_temp}
use est.Store.Atomic.Writers.{Write, temp_name, Stage, advance_write, take_step, take_steps}
use est.Store.Atomic.Writers.Serial.{
  AreApart, IsSerial, AllOldOrComplete, start_writers, take_steps-IsSerial,
  take_steps-AllOldOrComplete,
}
use est.Store.FileStore.{cert_path, join, serial_hex, get_certificate}
use est.Store.FileStore.Concurrent.{get_certificate-take_steps}
use est.Tests.Data.{cert_der, parse_certificate, no_faults, directory, no_files}

abbrev write : ℕ → Write
write zero = record {
  faults = record no_faults { suffix = 0 ∷ [] };
  path = cert_path directory (pos 7);
  bytes = cert_der 7;
  perm = 0o640;
}
write (suc n) = record {
  faults = record no_faults { suffix = suc n ∷ [] };
  path = b'f' ∷ [];
  bytes = n ∷ [];
  perm = 0o640;
}

length-cert_path : length (cert_path directory (pos 7)) ≡ 52
unfolding cert_path join serial_hex hex hex_loop hex_digit pad_zeros ascii
length-cert_path = refl

length-temp_name : length (temp_name (write 0)) ≡ 58
unfolding ascii
length-temp_name = omega (
  arith,
  length-append (cert_path directory (pos 7)) (ascii ".tmp-" ++ (0 ∷ [])),
  length-cert_path,
)

temps : (i j : ℕ) → i ≢ j → temp_name (write i) ≢ temp_name (write j)
unfolding ascii
temps zero zero h e = h refl
temps zero (suc j) h e = omega (arith, length-temp_name, ap length e)
temps (suc i) zero h e = omega (arith, length-temp_name, ap length e)
temps (suc i) (suc j) h e = ground (arith, h, e)

targets : (i j : ℕ) → (write i).path ≢ temp_name (write j)
unfolding ascii
targets zero zero e = omega (arith, length-temp_name, ap length e, length-cert_path)
targets zero (suc j) e = omega (arith, ap length e, length-cert_path)
targets (suc i) zero e = omega (arith, length-temp_name, ap length e)
targets (suc i) (suc j) e = ground (arith, e)

write-AreApart : AreApart write
write-AreApart = record { temps = temps; targets = targets }

-- The put of the certificate goes on between the steps of two others.
abbrev schedule : List ℕ
schedule = 0 ∷ 1 ∷ 0 ∷ 2 ∷ 1 ∷ 0 ∷ 1 ∷ 0 ∷ 2 ∷ 2 ∷ 0 ∷ 1 ∷ 0 ∷ 2 ∷ 0 ∷ 1 ∷ []

take_steps-IsSerial_example :
    IsSerial write no_files (take_steps write (start_writers write no_files) schedule)
take_steps-IsSerial_example = take_steps-IsSerial write no_files write-AreApart schedule

take_steps-AllOldOrComplete_example :
    let d = (take_steps write (start_writers write no_files) schedule).disk in
    All (AllOldOrComplete write no_files) (d.now ∷ d.past)
take_steps-AllOldOrComplete_example =
    take_steps-AllOldOrComplete write no_files write-AreApart schedule

has_returned :
    (take_steps write (start_writers write no_files) schedule).stage 0 ≡ Stage.returned (ok tt)
unfolding take_step advance_write create_temp write_temp chmod_temp rename_temp ascii cert_path join
    serial_hex hex hex_loop hex_digit pad_zeros str_eq
has_returned = refl

sole : (j : ℕ) → j ≢ 0 → (write j).path ≢ cert_path directory (pos 7)
sole zero h e = h refl
sole (suc j) h e = omega (arith, ap length e, length-cert_path)

get_certificate-take_steps_example :
    let w = take_steps write (start_writers write no_files) schedule in
    get_certificate parse_certificate none directory (pos 7) w.disk.now
    ≡ context (ascii "parse certificate") (parse_certificate (cert_der 7))
get_certificate-take_steps_example =
    get_certificate-take_steps parse_certificate directory write no_files schedule 0 (pos 7)
      write-AreApart refl sole has_returned
