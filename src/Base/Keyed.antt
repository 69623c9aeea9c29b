-- ===== src/Base/Keyed.antt =====
-- Lists whose elements a test tells apart: finding, removing and collecting.
use mathlib.Core.Path.{◌≡◌, refl, sym, ◌∙◌, ap}
use mathlib.Core.Bool.{Bool, true, false, true≢false}
use mathlib.Core.Logic.{◌⊎◌, inl, inr}
use mathlib.Core.Option.{Option, none, some}
use mathlib.Core.List.{List, [], ◌∷◌, ◌++◌}
use native.Mathlib.Omega.{arith}
use pyretic.Base.Tests.{if◌then◌else◌, Bool-cases, Option-cases}
use pyretic.Base.Options.{bind}

abbrev pub push_option {ℓ} : {A : Type ℓ} → Option A → List A → List A
push_option none xs = xs
push_option (some x) xs = x ∷ xs

-- The results that there are.
abbrev pub filter_map {ℓ} : {A B : Type ℓ} → (A → Option B) → List A → List B
filter_map f [] = []
filter_map f (x ∷ xs) = push_option (f x) (filter_map f xs)

abbrev pub first_some {ℓ} : {A : Type ℓ} → Option A → Option A → Option A
first_some none y = y
first_some (some a) y = some a

-- A test that is an equivalence.
pub record Same (R : Type 0) : Type 0 where
  pub same : R → R → Bool
  pub same_refl : (r : R) → same r r ≡ true
  pub same_sym : (r s : R) → same r s ≡ true → same s r ≡ true
  pub same_trans : (r s t : R) → same r s ≡ true → same s t ≡ true → same r t ≡ true

module _ {R : Type 0} ⦃k : Same R⦄ where
  unfoldable pub find : R → List R → Option R
  find t [] = none
  find t (r ∷ rs) = if k.same t r then some r else find t rs

  -- The list without its first element that is the same.
  unfoldable pub remove_same : R → List R → List R
  remove_same d [] = []
  remove_same d (r ∷ rs) = if k.same d r then rs else r ∷ remove_same d rs

  abbrev pub Distinct : List R → Type 0
  Distinct [] = Unit
  Distinct (r ∷ rs) = (find r rs ≡ none) × Distinct rs

  same_left : (t u r : R) → k.same t u ≡ true → k.same t r ≡ k.same u r
  same_left t u r h = elim (Bool-cases (k.same t r)) [
    | inl e ↦ e ∙ sym (k.same_trans u t r (k.same_sym t u h) e)
    | inr e ↦ elim (Bool-cases (k.same u r)) [
      | inl f ↦ k.same_trans t u r h f ∙ sym f
      | inr f ↦ e ∙ sym f
    ]
  ]

  same_right : (d r t : R) → k.same d r ≡ true → k.same t d ≡ k.same t r
  same_right d r t h = elim (Bool-cases (k.same t d)) [
    | inl e ↦ e ∙ sym (k.same_trans t d r e h)
    | inr e ↦ elim (Bool-cases (k.same t r)) [
      | inl f ↦ k.same_trans t r d f (k.same_sym d r h) ∙ sym f
      | inr f ↦ e ∙ sym f
    ]
  ]

  apart : (d r t : R) → k.same d r ≡ false → k.same t r ≡ true → k.same t d ≡ false
  apart d r t h e = elim (Bool-cases (k.same t d)) [
    | inl f ↦ absurd (true≢false (sym (k.same_trans d t r (k.same_sym t d f) e) ∙ h))
    | inr f ↦ f
  ]

  pub find_cong : (t u : R) (rs : List R) → k.same t u ≡ true → find t rs ≡ find u rs
  unfolding find
  find_cong t u [] h = refl
  find_cong t u (r ∷ rs) h = ground (arith, same_left t u r h, find_cong t u rs h)

  pub find_same : (t : R) (rs : List R) {r : R} → find t rs ≡ some r → k.same t r ≡ true
  unfolding find
  find_same t [] h = cc
  find_same t (s ∷ rs) {r} h = elim (Bool-cases (k.same t s)) [
    | inl e ↦ let same : s ≡ r = ground arith in ground arith
    | inr e ↦ find_same t rs (rw e at h)
  ]

  pub find-append :
      (t : R) (xs ys : List R) → find t (xs ++ ys) ≡ first_some (find t xs) (find t ys)
  unfolding find
  find-append t [] ys = refl
  find-append t (x ∷ xs) ys = ground (arith, find-append t xs ys)

  pub find-remove_same :
      (t d : R) (rs : List R)
      → Distinct rs
      → find t (remove_same d rs) ≡ (if k.same t d then none else find t rs)
  unfolding find remove_same
  find-remove_same t d [] h = ground arith
  find-remove_same t d (r ∷ rs) (h, hs) = elim (Bool-cases (k.same d r)) [
    | inl e ↦ rw e (ground (arith, same_right d r t e, find_cong t r rs))
    | inr e ↦ rw e (ground (arith, find-remove_same t d rs hs, apart d r t e))
  ]

  -- What is collected from distinct elements, with results that are the same, is found with them.
  pub find-filter_map :
      (f : R → Option R) (t : R) (rs : List R)
      → ((r s : R) → f r ≡ some s → k.same r s ≡ true)
      → Distinct rs
      → find t (filter_map f rs) ≡ bind (find t rs) f
  unfolding find
  find-filter_map f t [] g h = refl
  find-filter_map f t (r ∷ rs) g (h, hs) = elim (Option-cases (f r)) [
    | inl e ↦ rw e (ground (arith, find-filter_map f t rs g hs, find_cong t r rs, e))
    | inr (s, e) ↦ rw e (ground (arith, find-filter_map f t rs g hs, same_right r s t (g r s e), e))
  ]

  pub Distinct-filter_map :
      (f : R → Option R) (rs : List R)
      → ((r s : R) → f r ≡ some s → k.same r s ≡ true)
      → Distinct rs
      → Distinct (filter_map f rs)
  Distinct-filter_map f [] g h = tt
  Distinct-filter_map f (r ∷ rs) g (h, hs) = elim (Option-cases (f r)) [
    | inl e ↦ rw e (Distinct-filter_map f rs g hs)
    | inr (s, e) ↦
        let none_left : find s rs ≡ none = find_cong s r rs (k.same_sym r s (g r s e)) ∙ h in
        rw e (
          find-filter_map f s rs g hs ∙ ap (λ o. bind o f) none_left,
          Distinct-filter_map f rs g hs,
        )
  ]

  pub Distinct-remove_same : (d : R) (rs : List R) → Distinct rs → Distinct (remove_same d rs)
  unfolding remove_same
  Distinct-remove_same d [] h = tt
  Distinct-remove_same d (r ∷ rs) (h, hs) = elim (Bool-cases (k.same d r)) [
    | inl e ↦ rw e hs
    | inr e ↦ rw e (find-remove_same r d rs hs ∙ ground (arith, h), Distinct-remove_same d rs hs)
  ]

  pub Distinct-append :
      (xs ys : List R)
      → Distinct xs
      → Distinct ys
      → ((t : R) → (find t xs ≡ none) ⊎ (find t ys ≡ none))
      → Distinct (xs ++ ys)
  unfolding find
  Distinct-append [] ys hx hy h = hy
  Distinct-append (x ∷ xs) ys (h, hs) hy g = (
    find-append x xs ys
        ∙ rw h (elim (g x) [ inl e ↦ absurd (ground (arith, k.same_refl x)) | inr e ↦ e ]),
    Distinct-append xs ys hs hy (λ t. elim (g t) [
      | inl e ↦ elim (Bool-cases (k.same t x)) [
        | inl s ↦ absurd (ground arith)
        | inr s ↦ inl (rw s at e)
      ]
      | inr e ↦ inr e
    ]),
  )
