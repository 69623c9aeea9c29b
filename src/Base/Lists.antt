-- ===== src/Base/Lists.antt =====
-- Lists: quantified tests, and membership by recursion.
use Prim.Native.Nat.{ℕ, suc}
use mathlib.Core.Path.{◌≡◌, refl, sym, subst}
use mathlib.Core.Logic.{◌↔◌, ◌⊎◌, inl, inr}
use mathlib.Core.Bool.{Bool, true, false, ◌&&◌, ◌||◌}
use mathlib.Core.List.{List, [], ◌∷◌, ◌++◌}
use native.Mathlib.Omega.{arith}

module _ {ℓ} {A : Type ℓ} where
  abbrev pub length : List A → ℕ
  length [] = 0
  length (x ∷ xs) = suc (length xs)

  abbrev pub all : (A → Bool) → List A → Bool
  all p [] = true
  all p (x ∷ xs) = p x && all p xs

  abbrev pub any : (A → Bool) → List A → Bool
  any p [] = false
  any p (x ∷ xs) = p x || any p xs

  abbrev pub All {κ} : (A → Type κ) → List A → Type κ
  All P [] = Unit
  All P (x ∷ xs) = P x × All P xs

module _ {A : Type 0} where
  -- `x` is one of the elements.
  abbrev pub In : A → List A → Type 0
  In x [] = ⊥
  In x (y ∷ ys) = (x ≡ y) ⊎ In x ys

  pub In-append : (x : A) (xs ys : List A) → In x (xs ++ ys) ↔ (In x xs ⊎ In x ys)
  In-append x [] ys = (inr, elim [ inl h ↦ absurd h | inr h ↦ h ])
  In-append x (y ∷ xs) ys = (
    elim [
      | inl e ↦ inl (inl e)
      | inr h ↦ elim ((In-append x xs ys).0 h) [ inl a ↦ inl (inr a) | inr b ↦ inr b ]
    ],
    elim [
      | inl h ↦ elim h [ inl e ↦ inl e | inr a ↦ inr ((In-append x xs ys).1 (inl a)) ]
      | inr b ↦ inr ((In-append x xs ys).1 (inr b))
    ],
  )

  pub all-In : (p : A → Bool) (xs : List A) (x : A) → all p xs ≡ true → In x xs → p x ≡ true
  all-In p [] x h i = absurd i
  all-In p (y ∷ xs) x h (inl e) = ground (arith, e)
  all-In p (y ∷ xs) x h (inr i) = all-In p xs x (ground arith) i

  pub all_intro : (p : A → Bool) (xs : List A) → ((x : A) → p x ≡ true) → all p xs ≡ true
  all_intro p [] h = refl
  all_intro p (x ∷ xs) h = ground (arith, h x, all_intro p xs h)

module _ {A : Type 0} (P : A → Type 0) where
  pub All-append : (xs ys : List A) → All P xs → All P ys → All P (xs ++ ys)
  All-append [] ys hx hy = hy
  All-append (x ∷ xs) ys (h, hx) hy = (h, All-append xs ys hx hy)

  pub All_at : (xs : List A) (x : A) → All P xs → In x xs → P x
  All_at [] x h i = absurd i
  All_at (y ∷ xs) x (h, hs) (inl e) = subst P (sym e) h
  All_at (y ∷ xs) x (h, hs) (inr i) = All_at xs x hs i

  pub All_of : (xs : List A) → ((x : A) → In x xs → P x) → All P xs
  All_of [] f = tt
  All_of (x ∷ xs) f = (f x (inl refl), All_of xs (λ y i. f y (inr i)))
