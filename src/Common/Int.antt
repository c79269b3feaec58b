-- ===== src/Common/Int.antt =====
-- Go's `int`, `int64` and `big.Int` values. `negsuc n` is -(n + 1).
use Prim.Native.Nat.{ℕ, zero, suc, ◌+◌, ◌-◌}
use mathlib.Core.Path.{◌≡◌}
use mathlib.Core.Logic.{◌↔◌}
use mathlib.Core.Bool.{Bool, true, false, ◌&&◌}
use mathlib.Core.List.{List, [], ◌∷◌}
use native.Mathlib.Omega.{arith}
use est.Common.Logic.{◌==◌, ltb, if◌then◌else◌}

pub data ℤ : Type 0 where
  pos : ℕ → ℤ
  negsuc : ℕ → ℤ

unfoldable pub int_eq : ℤ → ℤ → Bool
int_eq (pos a) (pos b) = a == b
int_eq (pos a) (negsuc b) = false
int_eq (negsuc a) (pos b) = false
int_eq (negsuc a) (negsuc b) = a == b

pub int_eq_iff : (a b : ℤ) → (int_eq a b ≡ true) ↔ (a ≡ b)
unfolding int_eq
int_eq_iff (pos a) (pos b) = ground arith
int_eq_iff (pos a) (negsuc b) = ground arith
int_eq_iff (negsuc a) (pos b) = ground arith
int_eq_iff (negsuc a) (negsuc b) = ground arith

-- a - b
unfoldable pub sub_nat : ℕ → ℕ → ℤ
sub_nat a b = if ltb a b then negsuc (b - a - 1) else pos (a - b)

infixl 65 ◌+ℤ◌
unfoldable pub ◌+ℤ◌ : ℤ → ℤ → ℤ
unfolding sub_nat
pos a +ℤ pos b = pos (a + b)
pos a +ℤ negsuc b = sub_nat a (b + 1)
negsuc a +ℤ pos b = sub_nat b (a + 1)
negsuc a +ℤ negsuc b = negsuc (a + b + 1)

unfoldable pub negate : ℤ → ℤ
negate (pos zero) = pos 0
negate (pos (suc n)) = negsuc n
negate (negsuc n) = pos (n + 1)

-- `asn1.ObjectIdentifier`, a `[]int`, and its method `Equal`.
abbrev pub ObjectIdentifier : Type 0
ObjectIdentifier = List ℤ

unfoldable pub oid_eq : ObjectIdentifier → ObjectIdentifier → Bool
unfolding int_eq
oid_eq [] [] = true
oid_eq [] (b ∷ bs) = false
oid_eq (a ∷ as') [] = false
oid_eq (a ∷ as') (b ∷ bs) = int_eq a b && oid_eq as' bs

pub oid_eq_iff : (a b : ObjectIdentifier) → (oid_eq a b ≡ true) ↔ (a ≡ b)
unfolding oid_eq
oid_eq_iff [] [] = ground arith
oid_eq_iff [] (b ∷ bs) = ground arith
oid_eq_iff (a ∷ as') [] = ground arith
oid_eq_iff (a ∷ as') (b ∷ bs) = ground (arith, int_eq_iff a b, oid_eq_iff as' bs)
