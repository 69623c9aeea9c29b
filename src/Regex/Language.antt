-- ===== src/Regex/Language.antt =====
-- Languages as Boolean tests of words: concatenation and star, and the language of an expression.
use pyretic.Base.{
  ℕ, zero, suc, length, ◌≤◌, ◌==◌, Bool, true, false, ◌&&◌, ◌||◌, not, List, [], ◌∷◌, ◌≡◌, refl,
  sym, ◌∙◌, ap, fun_ext, arith,
}
use pyretic.Regex.{Re, empty, epsilon, symbol, concat, star, negate, alter, inters, Res, nil, cons}

abbrev pub Word : Type 0
Word = List ℕ

abbrev pub is_nil : Word → Bool
is_nil [] = true
is_nil (a ∷ w) = false

abbrev pub is_one : ℕ → Word → Bool
is_one c (a ∷ []) = c == a
is_one c _ = false

-- Some beginning of the word is in the first language, and the rest in the second.
unfoldable pub conc : (Word → Bool) → (Word → Bool) → Word → Bool
conc P Q [] = P [] && Q []
conc P Q (a ∷ w) = (P [] && Q (a ∷ w)) || conc (λ v. P (a ∷ v)) Q w

-- The word is made of at most `n` words of the language that are not empty.
unfoldable pub star_at : (Word → Bool) → ℕ → Word → Bool
unfolding conc
star_at P n [] = true
star_at P zero (a ∷ w) = false
star_at P (suc n) (a ∷ w) = conc (λ v. P (a ∷ v)) (star_at P n) w

unfoldable pub star_lang : (Word → Bool) → Word → Bool
unfolding star_at
star_lang P w = star_at P (length w) w

unfoldable mutual
  pub lang : Re → Word → Bool
  lang (empty m) w = false
  lang (epsilon m) w = is_nil w
  lang (symbol c m) w = is_one c w
  lang (concat r s) w = conc (lang r) (lang s) w
  lang (star r) w = star_lang (lang r) w
  lang (negate r) w = not (lang r w)
  lang (alter rs) w = any_lang rs w
  lang (inters rs) w = all_lang rs w

  pub any_lang : Res → Word → Bool
  any_lang nil w = false
  any_lang (cons r rs) w = lang r w || any_lang rs w

  pub all_lang : Res → Word → Bool
  all_lang nil w = true
  all_lang (cons r rs) w = lang r w && all_lang rs w

-- Only the rests of the word matter for the second language.
conc_bounded :
    (P Q R : Word → Bool) (w : Word)
    → ((v : Word) → length v ≤ length w → Q v ≡ R v)
    → conc P Q w ≡ conc P R w
unfolding conc
conc_bounded P Q R [] h = ground (arith, h [])
conc_bounded P Q R (a ∷ w) h =
    let rest = conc_bounded (λ v. P (a ∷ v)) Q R w (λ v k. h v (omega arith)) in
    ground (arith, h (a ∷ w), rest)

pub conc_or :
    (A B R : Word → Bool) (w : Word) → conc (λ v. A v || B v) R w ≡ (conc A R w || conc B R w)
unfolding conc
conc_or A B R [] = ground arith
conc_or A B R (a ∷ w) = ground (arith, conc_or (λ v. A (a ∷ v)) (λ v. B (a ∷ v)) R w)

pub conc_and :
    (b : Bool) (Q R : Word → Bool) (w : Word) → conc (λ v. b && Q v) R w ≡ (b && conc Q R w)
unfolding conc
conc_and b Q R [] = ground arith
conc_and b Q R (a ∷ w) = ground (arith, conc_and b (λ v. Q (a ∷ v)) R w)

pub conc_assoc : (P Q R : Word → Bool) (w : Word) → conc (conc P Q) R w ≡ conc P (conc Q R) w
unfolding conc
conc_assoc P Q R [] = ground arith
conc_assoc P Q R (a ∷ w) = ground (
  arith,
  conc_or (λ v. P [] && Q (a ∷ v)) (conc (λ v. P (a ∷ v)) Q) R w,
  conc_and (P []) (λ v. Q (a ∷ v)) R w,
  conc_assoc (λ v. P (a ∷ v)) Q R w,
)

pub conc_none : (Q : Word → Bool) (w : Word) → conc (λ v. false) Q w ≡ false
unfolding conc
conc_none Q [] = refl
conc_none Q (a ∷ w) = conc_none Q w

pub conc-none_right : (P : Word → Bool) (w : Word) → conc P (λ v. false) w ≡ false
unfolding conc
conc-none_right P [] = ground arith
conc-none_right P (a ∷ w) = ground (arith, conc-none_right (λ v. P (a ∷ v)) w)

pub conc-is_nil_left : (Q : Word → Bool) (w : Word) → conc is_nil Q w ≡ Q w
unfolding conc
conc-is_nil_left Q [] = refl
conc-is_nil_left Q (a ∷ w) = ground (arith, conc_none Q w)

pub conc-is_nil_right : (P : Word → Bool) (w : Word) → conc P is_nil w ≡ P w
unfolding conc
conc-is_nil_right P [] = ground arith
conc-is_nil_right P (a ∷ w) = ground (arith, conc-is_nil_right (λ v. P (a ∷ v)) w)

-- Enough steps are as good as one for each letter.
star_at_enough :
    (P : Word → Bool) (n m : ℕ) (w : Word)
    → length w ≤ n
    → length w ≤ m
    → star_at P n w ≡ star_at P m w
unfolding star_at
star_at_enough P n m [] h k = refl
star_at_enough P zero m (a ∷ w) h k = absurd (omega arith)
star_at_enough P (suc n) zero (a ∷ w) h k = absurd (omega arith)
star_at_enough P (suc n) (suc m) (a ∷ w) h k =
    conc_bounded (λ v. P (a ∷ v)) (star_at P n) (star_at P m) w
      (λ v l. star_at_enough P n m v (omega arith) (omega arith))

pub star_lang-cons :
    (P : Word → Bool) (a : ℕ) (w : Word)
    → star_lang P (a ∷ w) ≡ conc (λ v. P (a ∷ v)) (star_lang P) w
unfolding star_lang star_at
star_lang-cons P a w =
    conc_bounded (λ v. P (a ∷ v)) (star_at P (length w)) (star_lang P) w
      (λ v l. star_at_enough P (length w) (length v) v l (omega arith))

star_lang-cons_fun :
    (P : Word → Bool) (a : ℕ) → (λ v. star_lang P (a ∷ v)) ≡ conc (λ v. P (a ∷ v)) (star_lang P)
star_lang-cons_fun P a = fun_ext (star_lang-cons P a)

conc-star_lang-star_lang :
    (P : Word → Bool) (n : ℕ) (w : Word)
    → length w ≤ n
    → conc (star_lang P) (star_lang P) w ≡ star_lang P w
unfolding conc star_lang star_at
conc-star_lang-star_lang P n [] h = refl
conc-star_lang-star_lang P zero (a ∷ w) h = absurd (omega arith)
conc-star_lang-star_lang P (suc n) (a ∷ w) h =
    let tail : conc (λ v. star_lang P (a ∷ v)) (star_lang P) w ≡ star_lang P (a ∷ w) =
      ap (λ T. conc T (star_lang P) w) (star_lang-cons_fun P a)
      ∙ conc_assoc (λ v. P (a ∷ v)) (star_lang P) (star_lang P) w
      ∙ conc_bounded (λ v. P (a ∷ v)) (conc (star_lang P) (star_lang P)) (star_lang P) w
          (λ v l. conc-star_lang-star_lang P n v (omega arith))
      ∙ sym (star_lang-cons P a w) in
    ground (arith, tail)

star_lang_twice :
    (P : Word → Bool) (n : ℕ) (w : Word) → length w ≤ n → star_lang (star_lang P) w ≡ star_lang P w
star_lang_twice P n [] h = unfold star_lang star_at in refl
star_lang_twice P zero (a ∷ w) h = absurd (omega arith)
star_lang_twice P (suc n) (a ∷ w) h =
    star_lang-cons (star_lang P) a w
    ∙ ap (λ T. conc T (star_lang (star_lang P)) w) (star_lang-cons_fun P a)
    ∙ conc_assoc (λ v. P (a ∷ v)) (star_lang P) (star_lang (star_lang P)) w
    ∙ conc_bounded (λ v. P (a ∷ v)) (conc (star_lang P) (star_lang (star_lang P))) (star_lang P) w
        (λ v l.
          conc_bounded (star_lang P) (star_lang (star_lang P)) (star_lang P) v
            (λ u k. star_lang_twice P n u (omega arith))
          ∙ conc-star_lang-star_lang P (length v) v (omega arith))
    ∙ sym (star_lang-cons P a w)

pub star_lang-star_lang : (P : Word → Bool) (w : Word) → star_lang (star_lang P) w ≡ star_lang P w
star_lang-star_lang P w = star_lang_twice P (length w) w (omega arith)

pub star_lang-none : (w : Word) → star_lang (λ v. false) w ≡ is_nil w
unfolding star_lang star_at
star_lang-none [] = refl
star_lang-none (a ∷ w) = star_lang-cons (λ v. false) a w ∙ conc_none (star_lang (λ v. false)) w

pub star_lang-is_nil : (w : Word) → star_lang is_nil w ≡ is_nil w
unfolding star_lang star_at
star_lang-is_nil [] = refl
star_lang-is_nil (a ∷ w) = star_lang-cons is_nil a w ∙ conc_none (star_lang is_nil) w
