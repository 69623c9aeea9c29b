-- ===== src/Base/Options.antt =====
-- Options: what a step that may fail does in a row of steps.
use mathlib.Core.Option.{Option, none, some}
use mathlib.Core.List.{List, [], ◌∷◌}
use mathlib.Core.Path.{◌≡◌, refl, subst}
use mathlib.Core.Logic.{◌≢◌}

module _ {A B : Type 0} where
  abbrev pub map_option : (A → B) → Option A → Option B
  map_option f none = none
  map_option f (some a) = some (f a)

  abbrev pub bind : Option A → (A → Option B) → Option B
  bind none f = none
  bind (some a) f = f a

abbrev pub cons_option : {A : Type 0} → Option A → Option (List A) → Option (List A)
cons_option (some x) (some xs) = some (x ∷ xs)
cons_option _ _ = none

-- One result for each element, where all steps succeed.
abbrev pub map_all : {A B : Type 0} → (A → Option B) → List A → Option (List B)
map_all f [] = some []
map_all f (x ∷ xs) = cons_option (f x) (map_all f xs)

pub map_option_id : {A : Type 0} (o : Option A) → map_option (λ x. x) o ≡ o
map_option_id none = refl
map_option_id (some x) = refl

-- The result, where there is one, has the property.
abbrev pub OnSome {ℓ} : {A : Type 0} → (A → Type ℓ) → Option A → Type ℓ
OnSome P none = Unit
OnSome P (some x) = P x

module _ {A B : Type 0} (P : B → Type 0) where
  pub OnSome-bind :
      (o : Option A) (f : A → Option B)
      → ((a : A) → o ≡ some a → OnSome P (f a))
      → OnSome P (bind o f)
  OnSome-bind none f h = tt
  OnSome-bind (some a) f h = h a refl

  pub OnSome-map_option :
      (f : A → B) (o : Option A) → ((a : A) → o ≡ some a → P (f a)) → OnSome P (map_option f o)
  OnSome-map_option f none h = tt
  OnSome-map_option f (some a) h = h a refl

module _ {A : Type 0} (Q P : List A → Type 0) where
  pub OnSome-cons :
      (x : A) (o : Option (List A))
      → OnSome Q o
      → ((xs : List A) → Q xs → P (x ∷ xs))
      → OnSome P (cons_option (some x) o)
  OnSome-cons x none q f = tt
  OnSome-cons x (some xs) q f = f xs q

pub OnSome-some {ℓ} :
    {A : Type 0} (P : A → Type ℓ) (o : Option A) {x : A} → OnSome P o → o ≡ some x → P x
OnSome-some P o h e = subst (OnSome P) e h

pub some_inj : {A : Type 0} {x y : A} → some x ≡ some y → x ≡ y
some_inj h = cc

pub none≢some : {A : Type 0} {x : A} → none ≢ some x
none≢some h = cc
