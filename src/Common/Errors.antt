-- ===== src/Common/Errors.antt =====
-- Go's errors and `(value, error)` results. `wrap p e` is `fmt.Errorf("p: %w", e)`.
use mathlib.Core.Path.{◌≡◌, refl}
use mathlib.Core.Logic.{◌⊎◌, inl, inr}
use mathlib.Core.Bool.{Bool, true, false}
use mathlib.Core.Option.{Option, none, some}
use native.Mathlib.Omega.{arith}
use mathlib.Core.List.{◌++◌}
use est.Common.Text.{Bytes, ascii}

pub data Error : Type 0 where
  -- `ca.ErrInvalidCSRSignature`
  invalid_csr_signature : Error
  -- `errors.New`, and `fmt.Errorf` with no `%w`
  new : Bytes → Error
  wrap : Bytes → Error → Error

pub data Result {ℓ} (A : Type ℓ) : Type ℓ where
  ok : A → Result A
  err : Error → Result A

-- `if err != nil { return nil, fmt.Errorf("p: %w", err) }`
abbrev pub context {ℓ} : {A : Type ℓ} → Bytes → Result A → Result A
context p (ok a) = ok a
context p (err e) = err (wrap p e)

infixl 5 ◌>>=◌ ◌>>◌
-- `if err != nil { return nil, err }` between two calls
abbrev pub ◌>>=◌ {ℓ κ} : {V : Type ℓ} {W : Type κ} → Result V → (V → Result W) → Result W
err failure >>= next = err failure
ok v >>= next = next v

abbrev pub ◌>>◌ {ℓ} : {W : Type ℓ} → Result (Unit {0}) → Result W → Result W
check >> next = check >>= λ done. next

abbrev pub is_ok {ℓ} : {A : Type ℓ} → Result A → Bool
is_ok (ok a) = true
is_ok (err e) = false

pub Result-cases {ℓ} :
    {A : Type ℓ} (r : Result A) → ((a : A) × (r ≡ ok a)) ⊎ ((e : Error) × (r ≡ err e))
Result-cases (ok a) = inl (a, refl)
Result-cases (err e) = inr (e, refl)

-- A chain that ends well has gone through both calls.
pub >>=-eq-ok {ℓ κ} :
    {V : Type ℓ} {W : Type κ} (r : Result V) (next : V → Result W) {w : W}
    → (r >>= next) ≡ ok w
    → (v : V) × (r ≡ ok v) × (next v ≡ ok w)
>>=-eq-ok (err failure) next h = cc
>>=-eq-ok (ok v) next h = (v, refl, h)

-- `if !ok { return nil, e }`
abbrev pub require {ℓ} : {A : Type ℓ} → Option A → Error → Result A
require (some a) e = ok a
require none e = err e

abbrev pub guard : Bool → Error → Result (Unit {0})
guard true e = ok tt
guard false e = err e

-- The value, or that there was an error.
abbrev pub value {ℓ} : {A : Type ℓ} → Result A → Option A
value (ok a) = some a
value (err e) = none

pub value-eq-some {ℓ} : {A : Type ℓ} (r : Result A) {a : A} → value r ≡ some a → r ≡ ok a
value-eq-some (ok a) h = ground arith
value-eq-some (err e) h = cc

pub context-eq-ok {ℓ} :
    {A : Type ℓ} (p : Bytes) (r : Result A) {a : A} → context p r ≡ ok a → r ≡ ok a
context-eq-ok p (ok a) h = h
context-eq-ok p (err e) h = cc

-- `err.Error()`
unfoldable pub error_text : Error → Bytes
error_text invalid_csr_signature = ascii "ca: csr signature does not verify"
error_text (new message) = message
error_text (wrap prefix e) = prefix ++ (ascii ": " ++ error_text e)

pub value-context {ℓ} : {A : Type ℓ} (p : Bytes) (r : Result A) → value (context p r) ≡ value r
value-context p (ok a) = refl
value-context p (err e) = refl
