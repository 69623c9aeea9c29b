-- ===== src/Regex/Deriv.antt =====
-- lib/re.py, deriv and match_string: what an expression matches by derivatives is its language.
use pyretic.Base.{
  ℕ, ◌==◌, Bool, true, false, ◌&&◌, ◌||◌, not, List, [], ◌∷◌, ◌++◌, ◌≡◌, refl, sym, ◌∙◌, ap, ap₂,
  fun_ext, arith, if◌then◌else◌,
}
use pyretic.Regex.{
  Re, empty, epsilon, symbol, concat, star, negate, alter, inters, Res, nil, cons, smart_star,
  smart_inters, smart_alter, smart_concat, is_nullable, any_nullable, all_nullable, bool_to_re,
  nullable, deriv, alter_deriv, inters_deriv, match_string, deriv_string,
}
use pyretic.Regex.Language.{
  Word, is_one, conc, star_lang, star_at, lang, any_lang, all_lang, conc_none, conc-is_nil_left,
  star_lang-cons,
}
use pyretic.Regex.Smart.{
  smart_alter-lang, smart_inters-lang, smart_negate-lang, smart_star-lang, smart_concat-lang,
}

mutual
  unfolding is_nullable lang conc star_lang star_at

  is_nullable_lem : (r : Re) → is_nullable r ≡ lang r []
  is_nullable_lem (empty m) = refl
  is_nullable_lem (epsilon m) = refl
  is_nullable_lem (symbol c m) = refl
  is_nullable_lem (concat r s) = ap₂ ◌&&◌ (is_nullable_lem r) (is_nullable_lem s)
  is_nullable_lem (star r) = refl
  is_nullable_lem (negate r) = ap not (is_nullable_lem r)
  is_nullable_lem (alter rs) = any_nullable-any_lang rs
  is_nullable_lem (inters rs) = all_nullable-all_lang rs

  any_nullable-any_lang : (rs : Res) → any_nullable rs ≡ any_lang rs []
  any_nullable-any_lang nil = refl
  any_nullable-any_lang (cons r rs) = ap₂ ◌||◌ (is_nullable_lem r) (any_nullable-any_lang rs)

  all_nullable-all_lang : (rs : Res) → all_nullable rs ≡ all_lang rs []
  all_nullable-all_lang nil = refl
  all_nullable-all_lang (cons r rs) = ap₂ ◌&&◌ (is_nullable_lem r) (all_nullable-all_lang rs)

-- `nullable` gives epsilon for an expression exactly if the empty word is in its language.
pub is_nullable-lang : (r : Re) → is_nullable r ≡ lang r []
is_nullable-lang = is_nullable_lem

nullable_conc :
    (b : Bool) (Q : Word → Bool) (w : Word) → conc (lang (bool_to_re b)) Q w ≡ (b && Q w)
unfolding lang
nullable_conc true Q w = conc-is_nil_left Q w
nullable_conc false Q w = conc_none Q w

symbol_deriv :
    (c a : ℕ) (w : Word) → lang (if c == a then epsilon [] else empty []) w ≡ is_one c (a ∷ w)
unfolding lang
symbol_deriv c a [] = ground arith
symbol_deriv c a (b ∷ w) = ground arith

mutual
  unfolding deriv lang nullable conc

  deriv_lem : (r : Re) (a : ℕ) (w : List ℕ) → lang (deriv r a) w ≡ lang r (a ∷ w)
  deriv_lem (empty m) a w = refl
  deriv_lem (epsilon m) a w = refl
  deriv_lem (symbol c m) a w = symbol_deriv c a w
  deriv_lem (concat r s) a w =
      smart_alter-lang (smart_concat (deriv r a) s) (smart_concat (nullable r) (deriv s a)) w
      ∙ ap₂ ◌||◌
          (smart_concat-lang (deriv r a) s w
            ∙ ap (λ P. conc P (lang s) w) (fun_ext (deriv_lem r a)))
          (smart_concat-lang (nullable r) (deriv s a) w
            ∙ nullable_conc (is_nullable r) (lang (deriv s a)) w
            ∙ ap₂ ◌&&◌ (is_nullable-lang r) (deriv_lem s a w))
      ∙ ground arith
  deriv_lem (star r) a w =
      smart_concat-lang (deriv r a) (smart_star r) w
      ∙ ap₂ (λ P Q. conc P Q w) (fun_ext (deriv_lem r a)) (fun_ext (smart_star-lang r))
      ∙ sym (star_lang-cons (lang r) a w)
  deriv_lem (negate r) a w = smart_negate-lang (deriv r a) w ∙ ap not (deriv_lem r a w)
  deriv_lem (alter rs) a w = alter_deriv-lang (empty []) rs a w
  deriv_lem (inters rs) a w = inters_deriv-lang (negate (empty [])) rs a w

  alter_deriv-lang :
      (acc : Re) (rs : Res) (a : ℕ) (w : List ℕ)
      → lang (alter_deriv acc rs a) w ≡ (lang acc w || any_lang rs (a ∷ w))
  alter_deriv-lang acc nil a w = ground arith
  alter_deriv-lang acc (cons s rs) a w = ground (
    arith,
    alter_deriv-lang (smart_alter acc (deriv s a)) rs a w,
    smart_alter-lang acc (deriv s a) w,
    deriv_lem s a w,
  )

  inters_deriv-lang :
      (acc : Re) (rs : Res) (a : ℕ) (w : List ℕ)
      → lang (inters_deriv acc rs a) w ≡ (lang acc w && all_lang rs (a ∷ w))
  inters_deriv-lang acc nil a w = ground arith
  inters_deriv-lang acc (cons s rs) a w = ground (
    arith,
    inters_deriv-lang (smart_inters acc (deriv s a)) rs a w,
    smart_inters-lang acc (deriv s a) w,
    deriv_lem s a w,
  )

-- The derivative with respect to a character has the words that the expression has after that
-- character.
pub deriv-lang : (r : Re) (a : ℕ) (w : List ℕ) → lang (deriv r a) w ≡ lang r (a ∷ w)
deriv-lang = deriv_lem

-- match_string accepts exactly the words of the language of the expression.
pub match_string-lang : (r : Re) (w : List ℕ) → match_string r w ≡ lang r w
unfolding match_string
match_string-lang r [] = is_nullable-lang r
match_string-lang r (a ∷ w) = match_string-lang (deriv r a) w ∙ deriv-lang r a w

-- The derivative with respect to a word has the words that the expression has after it.
pub deriv_string-lang : (r : Re) (v w : List ℕ) → lang (deriv_string r v) w ≡ lang r (v ++ w)
unfolding deriv_string
deriv_string-lang r [] w = refl
deriv_string-lang r (a ∷ v) w = deriv_string-lang (deriv r a) v w ∙ deriv-lang r a (v ++ w)
