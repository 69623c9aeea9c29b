-- ===== src/Base/Sets.antt =====
-- Decidable equality as an interface, and sets of numbers as lists.
use Prim.Native.Nat.{ℕ}
use mathlib.Core.Path.{◌≡◌, refl}
use mathlib.Core.Logic.{◌↔◌}
use mathlib.Core.Bool.{Bool, true, false, ◌&&◌, ◌||◌}
use mathlib.Core.List.{List, [], ◌∷◌}
use native.Mathlib.Omega.{arith}
use pyretic.Base.Tests.{◌==◌, ==_iff, if◌then◌else◌}
use pyretic.Base.Lists.{all}

pub record Eq {ℓ} (A : Type ℓ) : Type ℓ where
  pub eq : A → A → Bool
  pub eq_iff : (a b : A) → (eq a b ≡ true) ↔ (a ≡ b)

instance abbrev pub nat_eq : Eq ℕ
nat_eq = record { eq = ◌==◌; eq_iff = ==_iff }

-- Is the number in the list?
abbrev pub has : ℕ → List ℕ → Bool
has p [] = false
has p (x ∷ xs) = p == x || has p xs

unfoldable pub set_union : List ℕ → List ℕ → List ℕ
set_union [] ys = ys
set_union (x ∷ xs) ys = let rest = set_union xs ys in if has x rest then rest else x ∷ rest

unfoldable pub set_inter : List ℕ → List ℕ → List ℕ
set_inter [] ys = []
set_inter (x ∷ xs) ys = let rest = set_inter xs ys in if has x ys then x ∷ rest else rest

unfoldable pub set_eq : List ℕ → List ℕ → Bool
set_eq xs ys = all (λ x. has x ys) xs && all (λ y. has y xs) ys

pub has-set_union : (p : ℕ) (xs ys : List ℕ) → has p (set_union xs ys) ≡ (has p xs || has p ys)
unfolding set_union
has-set_union p [] ys = refl
has-set_union p (x ∷ xs) ys = ground (arith, has-set_union p xs ys, ==_iff p x)

pub has-set_inter : (p : ℕ) (xs ys : List ℕ) → has p (set_inter xs ys) ≡ (has p xs && has p ys)
unfolding set_inter
has-set_inter p [] ys = refl
has-set_inter p (x ∷ xs) ys = ground (arith, has-set_inter p xs ys, ==_iff p x)

all-has :
    (p : ℕ) (xs ys : List ℕ) → all (λ x. has x ys) xs ≡ true → has p xs ≡ true → has p ys ≡ true
all-has p [] ys h k = ground arith
all-has p (x ∷ xs) ys h k = ground (arith, all-has p xs ys, ==_iff p x)

-- Equal sets have the same members.
pub set_eq-has : (p : ℕ) (xs ys : List ℕ) → set_eq xs ys ≡ true → has p xs ≡ has p ys
unfolding set_eq
set_eq-has p xs ys h = ground (arith, all-has p xs ys, all-has p ys xs)
