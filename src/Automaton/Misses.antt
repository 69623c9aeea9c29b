-- ===== src/Automaton/Misses.antt =====
-- How many elements of a list fail a test.
use pyretic.Base.{
  length, ℕ, suc, ◌<◌, ◌≤◌, Bool, true, false, List, [], ◌∷◌, ◌≡◌, sym, ◌∙◌, ap, arith, inl, inr,
  if◌then◌else◌, In,
}

-- The elements that fail the test.
abbrev pub misses : {A : Type 0} → (A → Bool) → List A → ℕ
misses p [] = 0
misses p (x ∷ xs) = if p x then misses p xs else suc (misses p xs)

pub misses-le :
    {A : Type 0} (p p' : A → Bool) (xs : List A)
    → ((x : A) → p x ≡ true → p' x ≡ true)
    → misses p' xs ≤ misses p xs
misses-le p p' [] h = omega arith
misses-le p p' (x ∷ xs) h = ground (arith, misses-le p p' xs h, h x)

pub misses-lt :
    {A : Type 0} (p p' : A → Bool) (xs : List A) (y : A)
    → ((x : A) → p x ≡ true → p' x ≡ true)
    → In y xs
    → p y ≡ false
    → p' y ≡ true
    → misses p' xs < misses p xs
misses-lt p p' [] y h i e f = absurd i
misses-lt p p' (x ∷ xs) y h (inl k) e f =
    let ex : p x ≡ false = ap p (sym k) ∙ e in
    let fx : p' x ≡ true = ap p' (sym k) ∙ f in ground (arith, misses-le p p' xs h, ex, fx)
misses-lt p p' (x ∷ xs) y h (inr i) e f = ground (arith, misses-lt p p' xs y h i e f, h x)

pub misses-length : {A : Type 0} (p : A → Bool) (xs : List A) → misses p xs ≤ length xs
misses-length p [] = omega arith
misses-length p (x ∷ xs) = ground (arith, misses-length p xs)
