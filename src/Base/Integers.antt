-- ===== src/Base/Integers.antt =====
-- Python's integers below and above zero, where the code only subtracts one from them.
use Prim.Native.Nat.{ℕ, zero, suc}
use mathlib.Core.Path.{◌≡◌, refl}
use mathlib.Core.Logic.{◌↔◌}
use mathlib.Core.Bool.{Bool, true, false}
use native.Mathlib.Omega.{arith}
use pyretic.Base.Tests.{◌==◌, ==_iff, ltb}

pub data ℤ : Type 0 where
  pos : ℕ → ℤ
  negsuc : ℕ → ℤ

-- x - 1
unfoldable pub pred : ℤ → ℤ
pred (pos zero) = negsuc zero
pred (pos (suc n)) = pos n
pred (negsuc n) = negsuc (suc n)

unfoldable pub int_eq : ℤ → ℤ → Bool
int_eq (pos a) (pos b) = a == b
int_eq (negsuc a) (negsuc b) = a == b
int_eq _ _ = false

-- x < y
unfoldable pub int_lt : ℤ → ℤ → Bool
int_lt (pos a) (pos b) = ltb a b
int_lt (negsuc a) (negsuc b) = ltb b a
int_lt (negsuc a) (pos b) = true
int_lt (pos a) (negsuc b) = false

pub int_lt-pred : (x : ℤ) → int_lt (pred x) x ≡ true
unfolding pred int_lt
int_lt-pred (pos zero) = refl
int_lt-pred (pos (suc n)) = ground arith
int_lt-pred (negsuc n) = ground arith

pub int_lt_trans : (x y z : ℤ) → int_lt x y ≡ true → int_lt y z ≡ true → int_lt x z ≡ true
unfolding int_lt
int_lt_trans (pos a) (pos b) (pos c) h k = ground arith
int_lt_trans (negsuc a) y (pos c) h k = refl
int_lt_trans (negsuc a) (negsuc b) (negsuc c) h k = ground arith
int_lt_trans (pos a) (negsuc b) z h k = absurd (ground arith)
int_lt_trans (negsuc a) (pos b) (negsuc c) h k = absurd (ground arith)
int_lt_trans (pos a) (pos b) (negsuc c) h k = absurd (ground arith)

pub int_lt-int_eq : (x y : ℤ) → int_lt x y ≡ true → int_eq x y ≡ false
unfolding int_lt int_eq
int_lt-int_eq (pos a) (pos b) h = ground arith
int_lt-int_eq (negsuc a) (negsuc b) h = ground arith
int_lt-int_eq (negsuc a) (pos b) h = refl
int_lt-int_eq (pos a) (negsuc b) h = refl

pub int_eq_iff : (x y : ℤ) → (int_eq x y ≡ true) ↔ (x ≡ y)
unfolding int_eq
int_eq_iff (pos a) (pos b) = ground (arith, ==_iff a b)
int_eq_iff (negsuc a) (negsuc b) = ground (arith, ==_iff a b)
int_eq_iff (pos a) (negsuc b) = ground arith
int_eq_iff (negsuc a) (pos b) = ground arith
