-- ===== src/Regex/Consumed.antt =====
-- lib/re.py, deriv_consumed: the derivative together with the metadata of the symbols it consumes.
use pyretic.Base.{
  ℕ, ◌==◌, List, [], ◌∷◌, ◌++◌, ◌≡◌, refl, ◌∙◌, ap, ap₂, Bool-cases, inl, inr, if◌then◌else◌,
}
use pyretic.Regex.{
  Metadata, Re, empty, epsilon, symbol, concat, star, negate, alter, inters, Res, nil, cons, re_eq,
  smart_star, smart_negate, smart_inters, smart_alter, smart_concat, nullable, deriv, alter_deriv,
  inters_deriv,
}

-- foldl, with the arguments of the source
unfoldable pub foldl : {A B : Type 0} → (B → A → B) → List A → B → B
foldl f [] acc = acc
foldl f (x ∷ xs) acc = foldl f xs (f acc x)

abbrev pub Consumed : Type 0
Consumed = Re × Metadata

unfoldable pub all_metadata : List Consumed → Metadata
unfolding foldl
all_metadata ds = foldl (λ ss s. ss ++ s.1) ds []

unfoldable mutual
  pub deriv_consumed : Re → ℕ → Consumed
  deriv_consumed (empty m) a = (empty [], [])
  deriv_consumed (epsilon m) a = (empty [], [])
  deriv_consumed (symbol c m) a = if c == a then (epsilon [], m) else (empty [], [])
  deriv_consumed (star r) a = let (d, s) = deriv_consumed r a in (smart_concat d (smart_star r), s)
  deriv_consumed (negate r) a = let (d, s) = deriv_consumed r a in (smart_negate d, s)
  deriv_consumed (concat r1 r2) a =
      let (d1, s1) = deriv_consumed r1 a in
      let (d2, s2) = deriv_consumed r2 a in
      (
        smart_alter (smart_concat d1 r2) (smart_concat (nullable r1) d2),
        s1 ++ (if re_eq (nullable r1) (epsilon []) then s2 else []),
      )
  deriv_consumed (alter rs) a =
      let ds = consumed_list rs a in
      (foldl (λ acc s. smart_alter acc s.0) ds (empty []), all_metadata ds)
  deriv_consumed (inters rs) a =
      let ds = consumed_list rs a in
      (foldl (λ acc s. smart_inters acc s.0) ds (negate (empty [])), all_metadata ds)

  pub consumed_list : Res → ℕ → List Consumed
  consumed_list nil a = []
  consumed_list (cons r rs) a = deriv_consumed r a ∷ consumed_list rs a

mutual
  unfolding deriv_consumed deriv foldl

  deriv_consumed_lem : (r : Re) (a : ℕ) → (deriv_consumed r a).0 ≡ deriv r a
  deriv_consumed_lem (empty m) a = refl
  deriv_consumed_lem (epsilon m) a = refl
  deriv_consumed_lem (symbol c m) a = elim (Bool-cases (c == a)) [ inl e ↦ rw e | inr e ↦ rw e ]
  deriv_consumed_lem (star r) a = ap (λ d. smart_concat d (smart_star r)) (deriv_consumed_lem r a)
  deriv_consumed_lem (negate r) a = ap smart_negate (deriv_consumed_lem r a)
  deriv_consumed_lem (concat r s) a =
      ap₂ (λ d e. smart_alter (smart_concat d s) (smart_concat (nullable r) e))
        (deriv_consumed_lem r a) (deriv_consumed_lem s a)
  deriv_consumed_lem (alter rs) a = consumed_list-alter rs (empty []) a
  deriv_consumed_lem (inters rs) a = consumed_list-inters rs (negate (empty [])) a

  consumed_list-alter :
      (rs : Res) (acc : Re) (a : ℕ)
      → foldl (λ d s. smart_alter d s.0) (consumed_list rs a) acc ≡ alter_deriv acc rs a
  consumed_list-alter nil acc a = refl
  consumed_list-alter (cons r rs) acc a =
      consumed_list-alter rs (smart_alter acc (deriv_consumed r a).0) a
      ∙ ap (λ d. alter_deriv (smart_alter acc d) rs a) (deriv_consumed_lem r a)

  consumed_list-inters :
      (rs : Res) (acc : Re) (a : ℕ)
      → foldl (λ d s. smart_inters d s.0) (consumed_list rs a) acc ≡ inters_deriv acc rs a
  consumed_list-inters nil acc a = refl
  consumed_list-inters (cons r rs) acc a =
      consumed_list-inters rs (smart_inters acc (deriv_consumed r a).0) a
      ∙ ap (λ d. inters_deriv (smart_inters acc d) rs a) (deriv_consumed_lem r a)

-- The first part of deriv_consumed is the derivative.
pub deriv_consumed-deriv : (r : Re) (a : ℕ) → (deriv_consumed r a).0 ≡ deriv r a
deriv_consumed-deriv = deriv_consumed_lem
