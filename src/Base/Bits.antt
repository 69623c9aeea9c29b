-- ===== src/Base/Bits.antt =====
-- Masks and shifts: what the bitwise operations are on numbers put together from two parts.
use Prim.Native.Nat.{
  ℕ, zero, suc, ◌+◌, ◌*◌, ◌/◌, ◌%◌, ◌≤◌, ◌<◌, min, max, bit_and, bit_or, digits, bit_and-bitwise,
  bit_or-bitwise,
}
use mathlib.Core.Path.{◌≡◌, refl, subst, ap, ◌∙◌}
use native.Mathlib.Omega.{arith}

abbrev and_digits : ℕ → ℕ → ℕ → ℕ
and_digits n a b = digits (λ c. zero) min n a b

and_digits_enough : (n m a b : ℕ) → a ≤ n → a ≤ m → and_digits n a b ≡ and_digits m a b
and_digits_enough zero zero a b p q = refl
and_digits_enough zero (suc m) zero b p q = refl
and_digits_enough zero (suc m) (suc a) b p q = absurd (omega arith)
and_digits_enough (suc n) zero zero b p q = refl
and_digits_enough (suc n) zero (suc a) b p q = absurd (omega arith)
and_digits_enough (suc n) (suc m) zero b p q = refl
and_digits_enough (suc n) (suc m) (suc a) b p q =
    omega (arith, and_digits_enough n m (suc a / 2) (b / 2) (omega arith) (omega arith))

-- The lowest digit, and the others.
bit_and_step : (a b : ℕ) → bit_and a b ≡ bit_and (a / 2) (b / 2) * 2 + min (a % 2) (b % 2)
bit_and_step zero b = omega (arith, bit_and-bitwise 0 b, bit_and-bitwise 0 (b / 2))
bit_and_step (suc a) b = omega (
  arith,
  bit_and-bitwise (suc a) b,
  bit_and-bitwise (suc a / 2) (b / 2),
  and_digits_enough a (suc a / 2) (suc a / 2) (b / 2) (omega arith) (omega arith),
)

abbrev or_digits : ℕ → ℕ → ℕ → ℕ
or_digits n a b = digits (λ c. c) max n a b

or_digits_enough : (n m a b : ℕ) → a ≤ n → a ≤ m → or_digits n a b ≡ or_digits m a b
or_digits_enough zero zero a b p q = refl
or_digits_enough zero (suc m) zero b p q = refl
or_digits_enough zero (suc m) (suc a) b p q = absurd (omega arith)
or_digits_enough (suc n) zero zero b p q = refl
or_digits_enough (suc n) zero (suc a) b p q = absurd (omega arith)
or_digits_enough (suc n) (suc m) zero b p q = refl
or_digits_enough (suc n) (suc m) (suc a) b p q =
    omega (arith, or_digits_enough n m (suc a / 2) (b / 2) (omega arith) (omega arith))

bit_or_step : (a b : ℕ) → bit_or a b ≡ bit_or (a / 2) (b / 2) * 2 + max (a % 2) (b % 2)
bit_or_step zero b = omega (arith, bit_or-bitwise 0 b, bit_or-bitwise 0 (b / 2))
bit_or_step (suc a) b = omega (
  arith,
  bit_or-bitwise (suc a) b,
  bit_or-bitwise (suc a / 2) (b / 2),
  or_digits_enough a (suc a / 2) (suc a / 2) (b / 2) (omega arith) (omega arith),
)

-- x << k, 1 << k and (1 << k) - 1
abbrev pub shifted : ℕ → ℕ → ℕ
shifted zero x = x
shifted (suc k) x = 2 * shifted k x

abbrev pub power : ℕ → ℕ
power zero = 1
power (suc k) = 2 * power k

abbrev pub ones : ℕ → ℕ
ones zero = 0
ones (suc k) = 2 * ones k + 1

bit_and-zero_enough : (n a : ℕ) → a ≤ n → bit_and a 0 ≡ 0
bit_and-zero_enough n zero h = refl
bit_and-zero_enough zero (suc a) h = absurd (omega arith)
bit_and-zero_enough (suc n) (suc a) h =
    omega (arith, bit_and_step (suc a) 0, bit_and-zero_enough n (suc a / 2) (omega arith))

bit_or-zero_enough : (n a : ℕ) → a ≤ n → bit_or a 0 ≡ a
bit_or-zero_enough n zero h = refl
bit_or-zero_enough zero (suc a) h = absurd (omega arith)
bit_or-zero_enough (suc n) (suc a) h =
    omega (arith, bit_or_step (suc a) 0, bit_or-zero_enough n (suc a / 2) (omega arith))

bit_and-odd : (a m : ℕ) → bit_and a (2 * m + 1) ≡ bit_and (a / 2) m * 2 + a % 2
bit_and-odd a m =
    let half : (2 * m + 1) / 2 ≡ m = omega arith in
    let step = bit_and_step a (2 * m + 1) in
    let step' : bit_and a (2 * m + 1) ≡ bit_and (a / 2) m * 2 + min (a % 2) ((2 * m + 1) % 2) =
      subst (λ h. bit_and a (2 * m + 1) ≡ bit_and (a / 2) h * 2 + min (a % 2) ((2 * m + 1) % 2))
        half step in
    omega (arith, step')

bit_or-even : (s b : ℕ) → bit_or (2 * s) b ≡ bit_or s (b / 2) * 2 + b % 2
bit_or-even s b =
    let half : (2 * s) / 2 ≡ s = omega arith in
    let step' : bit_or (2 * s) b ≡ bit_or s (b / 2) * 2 + max ((2 * s) % 2) (b % 2) =
      subst (λ h. bit_or (2 * s) b ≡ bit_or h (b / 2) * 2 + max ((2 * s) % 2) (b % 2)) half
        (bit_or_step (2 * s) b) in
    omega (arith, step')

-- A mask of `k` ones leaves less than 1 << k.
pub bit_and-ones_lt : (k a : ℕ) → bit_and a (ones k) < power k
bit_and-ones_lt zero a = omega (arith, bit_and-zero_enough a a (omega arith))
bit_and-ones_lt (suc k) a = omega (arith, bit_and-odd a (ones k), bit_and-ones_lt k (a / 2))

-- It takes the lower part out of a number of two parts.
pub bit_and-lower : (k x b : ℕ) → b < power k → bit_and (shifted k x + b) (ones k) ≡ b
bit_and-lower zero x b h = omega (arith, bit_and-zero_enough (x + b) (x + b) (omega arith))
bit_and-lower (suc k) x b h =
    let half : (2 * shifted k x + b) / 2 ≡ shifted k x + b / 2 = omega arith in
    let rest : bit_and ((2 * shifted k x + b) / 2) (ones k) ≡ b / 2 =
      ap (λ h. bit_and h (ones k)) half ∙ bit_and-lower k x (b / 2) (omega arith) in
    omega (arith, bit_and-odd (2 * shifted k x + b) (ones k), rest)

-- A number that ends in `k` zeros is put together with one of `k` digits by adding it.
pub bit_or-lower : (k x b : ℕ) → b < power k → bit_or (shifted k x) b ≡ shifted k x + b
bit_or-lower zero x b h =
    let none_left : b ≡ 0 = omega arith in
    omega (arith, ap (bit_or x) none_left, bit_or-zero_enough x x (omega arith))
bit_or-lower (suc k) x b h =
    omega (arith, bit_or-even (shifted k x) b, bit_or-lower k x (b / 2) (omega arith))

shifted_zero : (k b : ℕ) → b ≡ shifted k 0 + b
shifted_zero zero b = omega arith
shifted_zero (suc k) b = omega (arith, shifted_zero k b)

-- A mask of `k` ones leaves a number of `k` digits as it is.
pub bit_and-low_digits : (k b : ℕ) → b < power k → bit_and b (ones k) ≡ b
bit_and-low_digits k b h = ap (λ x. bit_and x (ones k)) (shifted_zero k b) ∙ bit_and-lower k 0 b h

bit_and-even : (a m : ℕ) → bit_and a (2 * m) ≡ bit_and (a / 2) m * 2
bit_and-even a m =
    let half : (2 * m) / 2 ≡ m = omega arith in
    let step : bit_and a (2 * m) ≡ bit_and (a / 2) m * 2 + min (a % 2) ((2 * m) % 2) =
      subst (λ h. bit_and a (2 * m) ≡ bit_and (a / 2) h * 2 + min (a % 2) ((2 * m) % 2)) half
        (bit_and_step a (2 * m)) in
    omega (arith, step)

-- Two masks that share no digit and have all of them between them take a number apart.
pub bit_and-masks :
    (k j r : ℕ) → r < shifted k (power j) → bit_and r (shifted k (ones j)) + bit_and r (ones k) ≡ r
bit_and-masks zero j r h =
    omega (arith, bit_and-low_digits j r h, bit_and-zero_enough r r (omega arith))
bit_and-masks (suc k) j r h = omega (
  arith,
  bit_and-even r (shifted k (ones j)),
  bit_and-odd r (ones k),
  bit_and-masks k j (r / 2) (omega arith),
)
