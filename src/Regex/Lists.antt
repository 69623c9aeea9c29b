-- ===== src/Regex/Lists.antt =====
-- lib/re.py: equality, and the sorted lists without repetitions of alternations and intersections.
use pyretic.Base.{
  leb, true, ◌&&◌, ◌||◌, not, ◌≡◌, refl, ◌∙◌, ap, ap₂, arith, Bool-cases, inl, inr, and-true,
}
use pyretic.Regex.{
  Re, empty, epsilon, symbol, concat, star, negate, alter, inters, Res, nil, cons, append, re_eq,
  res_eq, sort_key, sort_insert, re_sort, aggregate_metadata, nub_after, re_nub, inters_items,
  alter_items,
}
use pyretic.Regex.Language.{Word, is_one, conc, star_lang, lang, any_lang, all_lang}

-- Expressions that are equal up to metadata have one language.
mutual
  unfolding re_eq lang

  re_eq_lem : (r s : Re) → re_eq r s ≡ true → lang r ≡ lang s
  re_eq_lem (empty m) (empty n) h = refl
  re_eq_lem (epsilon m) (epsilon n) h = refl
  re_eq_lem (symbol c m) (symbol d n) h = let same : c ≡ d = ground arith in ap is_one same
  re_eq_lem (concat r1 r2) (concat s1 s2) h =
      let (h1, h2) = (and-true (re_eq r1 s1) (re_eq r2 s2)).0 h in
      ap₂ conc (re_eq_lem r1 s1 h1) (re_eq_lem r2 s2 h2)
  re_eq_lem (star r) (star s) h = ap star_lang (re_eq_lem r s h)
  re_eq_lem (negate r) (negate s) h = ap (λ P w. not (P w)) (re_eq_lem r s h)
  re_eq_lem (alter rs) (alter ss) h = res_eq-any_lang rs ss h
  re_eq_lem (inters rs) (inters ss) h = res_eq-all_lang rs ss h
  re_eq_lem _ _ h = ground arith

  res_eq-any_lang : (rs ss : Res) → res_eq rs ss ≡ true → any_lang rs ≡ any_lang ss
  res_eq-any_lang nil nil h = refl
  res_eq-any_lang (cons r rs) (cons s ss) h =
      let (h1, h2) = (and-true (re_eq r s) (res_eq rs ss)).0 h in
      ap₂ (λ P Q w. P w || Q w) (re_eq_lem r s h1) (res_eq-any_lang rs ss h2)
  res_eq-any_lang _ _ h = ground arith

  res_eq-all_lang : (rs ss : Res) → res_eq rs ss ≡ true → all_lang rs ≡ all_lang ss
  res_eq-all_lang nil nil h = refl
  res_eq-all_lang (cons r rs) (cons s ss) h =
      let (h1, h2) = (and-true (re_eq r s) (res_eq rs ss)).0 h in
      ap₂ (λ P Q w. P w && Q w) (re_eq_lem r s h1) (res_eq-all_lang rs ss h2)
  res_eq-all_lang _ _ h = ground arith

-- Expressions that are equal by __eq__, which ignores metadata, have the same words.
pub re_eq-lang : (r s : Re) → re_eq r s ≡ true → lang r ≡ lang s
re_eq-lang = re_eq_lem

pub aggregate_metadata-lang : (r s : Re) → lang (aggregate_metadata r s) ≡ lang r
unfolding aggregate_metadata lang
aggregate_metadata-lang (symbol c m) (symbol d n) = refl
aggregate_metadata-lang (epsilon m) (epsilon n) = refl
aggregate_metadata-lang (empty m) (empty n) = refl
aggregate_metadata-lang _ _ = refl

-- Lists: sorting, and leaving out repetitions.
pub any_lang-append :
    (rs ss : Res) (w : Word) → any_lang (append rs ss) w ≡ (any_lang rs w || any_lang ss w)
unfolding append lang
any_lang-append nil ss w = refl
any_lang-append (cons r rs) ss w = ground (arith, any_lang-append rs ss w)

pub all_lang-append :
    (rs ss : Res) (w : Word) → all_lang (append rs ss) w ≡ (all_lang rs w && all_lang ss w)
unfolding append lang
all_lang-append nil ss w = refl
all_lang-append (cons r rs) ss w = ground (arith, all_lang-append rs ss w)

any_lang-insert :
    (r : Re) (rs : Res) (w : Word) → any_lang (sort_insert r rs) w ≡ (lang r w || any_lang rs w)
unfolding sort_insert lang
any_lang-insert r nil w = refl
any_lang-insert r (cons s rs) w = elim (Bool-cases (leb (sort_key r) (sort_key s))) [
  | inl e ↦ rw e
  | inr e ↦ rw e (ground (arith, any_lang-insert r rs w))
]

all_lang-insert :
    (r : Re) (rs : Res) (w : Word) → all_lang (sort_insert r rs) w ≡ (lang r w && all_lang rs w)
unfolding sort_insert lang
all_lang-insert r nil w = refl
all_lang-insert r (cons s rs) w = elim (Bool-cases (leb (sort_key r) (sort_key s))) [
  | inl e ↦ rw e
  | inr e ↦ rw e (ground (arith, all_lang-insert r rs w))
]

pub any_lang-sort : (rs : Res) (w : Word) → any_lang (re_sort rs) w ≡ any_lang rs w
unfolding re_sort lang
any_lang-sort nil w = refl
any_lang-sort (cons r rs) w =
    any_lang-insert r (re_sort rs) w ∙ ap (λ b. lang r w || b) (any_lang-sort rs w)

pub all_lang-sort : (rs : Res) (w : Word) → all_lang (re_sort rs) w ≡ all_lang rs w
unfolding re_sort lang
all_lang-sort nil w = refl
all_lang-sort (cons r rs) w =
    all_lang-insert r (re_sort rs) w ∙ ap (λ b. lang r w && b) (all_lang-sort rs w)

any_lang-nub_after :
    (p : Re) (rs : Res) (w : Word)
    → (lang p w || any_lang (nub_after p rs) w) ≡ (lang p w || any_lang rs w)
unfolding nub_after lang
any_lang-nub_after p nil w = refl
any_lang-nub_after p (cons r rs) w = elim (Bool-cases (re_eq r p)) [
  | inl e ↦
      let q = aggregate_metadata p r in
      let same : lang r w ≡ lang p w = ap (λ P. P w) (re_eq-lang r p e) in
      let kept : lang q w ≡ lang p w = ap (λ P. P w) (aggregate_metadata-lang p r) in
      rw e (ground (arith, any_lang-nub_after q rs w))
  | inr e ↦ rw e (ground (arith, any_lang-nub_after r rs w))
]

all_lang-nub_after :
    (p : Re) (rs : Res) (w : Word)
    → (lang p w && all_lang (nub_after p rs) w) ≡ (lang p w && all_lang rs w)
unfolding nub_after lang
all_lang-nub_after p nil w = refl
all_lang-nub_after p (cons r rs) w = elim (Bool-cases (re_eq r p)) [
  | inl e ↦
      let q = aggregate_metadata p r in
      let same : lang r w ≡ lang p w = ap (λ P. P w) (re_eq-lang r p e) in
      let kept : lang q w ≡ lang p w = ap (λ P. P w) (aggregate_metadata-lang p r) in
      rw e (ground (arith, all_lang-nub_after q rs w))
  | inr e ↦ rw e (ground (arith, all_lang-nub_after r rs w))
]

pub any_lang-nub : (rs : Res) (w : Word) → any_lang (re_nub rs) w ≡ any_lang rs w
unfolding re_nub lang
any_lang-nub nil w = refl
any_lang-nub (cons r rs) w = any_lang-nub_after r rs w

pub all_lang-nub : (rs : Res) (w : Word) → all_lang (re_nub rs) w ≡ all_lang rs w
unfolding re_nub lang
all_lang-nub nil w = refl
all_lang-nub (cons r rs) w = all_lang-nub_after r rs w

pub any_lang-items : (r : Re) (w : Word) → any_lang (alter_items r) w ≡ lang r w
unfolding lang
any_lang-items (alter rs) w = refl
any_lang-items _ w = ground arith

pub all_lang-items : (r : Re) (w : Word) → all_lang (inters_items r) w ≡ lang r w
unfolding lang
all_lang-items (inters rs) w = refl
all_lang-items _ w = ground arith
