-- ===== src/Regex/Smart.antt =====
-- lib/re.py: the smart constructors keep the language.
use pyretic.Base.{
  ◌&&◌, ◌||◌, not, ◌≡◌, refl, sym, ◌∙◌, ap, ap₂, fun_ext, arith, Bool-cases, inl, inr,
}
use pyretic.Regex.{
  Re, empty, epsilon, concat, star, negate, alter, inters, append, re_eq, re_sort,
  aggregate_metadata, re_nub, smart_star, smart_negate, or_helper, inters_helper, inters_items,
  smart_inters, alter_helper, alter_items, smart_alter, join_concat, smart_concat,
}
use pyretic.Regex.Language.{
  Word, conc, star_lang, lang, conc_assoc, conc_none, conc-none_right, conc-is_nil_left,
  conc-is_nil_right, star_lang-star_lang, star_lang-none, star_lang-is_nil,
}
-- Expressions that are equal up to metadata have one language.
use pyretic.Regex.Lists.{
  re_eq-lang, aggregate_metadata-lang, any_lang-append, all_lang-append, any_lang-sort,
  all_lang-sort, any_lang-nub, all_lang-nub, any_lang-items, all_lang-items,
}

-- The constructors.
alter_helper-lang :
    (r s d : Re) (w : Word)
    → lang d w ≡ (lang r w || lang s w)
    → lang (or_helper (alter_helper r s) d) w ≡ (lang r w || lang s w)
unfolding lang
alter_helper-lang (empty m) s d w h = refl
alter_helper-lang (negate (empty m)) s d w h = refl
alter_helper-lang (negate _) s d w h = h
alter_helper-lang _ s d w h = h

inters_helper-lang :
    (r s d : Re) (w : Word)
    → lang d w ≡ (lang r w && lang s w)
    → lang (or_helper (inters_helper r s) d) w ≡ (lang r w && lang s w)
unfolding lang
inters_helper-lang (empty m) s d w h = refl
inters_helper-lang (negate (empty m)) s d w h = refl
inters_helper-lang (negate _) s d w h = h
inters_helper-lang _ s d w h = h

-- Smart alternation has the words of either expression.
pub smart_alter-lang : (r s : Re) (w : Word) → lang (smart_alter r s) w ≡ (lang r w || lang s w)
unfolding smart_alter
smart_alter-lang r s w = elim (Bool-cases (re_eq r s)) [
  | inl e ↦
      let same : lang r w ≡ lang s w = ap (λ P. P w) (re_eq-lang r s e) in
      let kept : lang (aggregate_metadata r s) w ≡ lang r w =
        ap (λ P. P w) (aggregate_metadata-lang r s) in
      rw e (ground (arith, kept))
  | inr e ↦
      let items = append (alter_items r) (alter_items s) in
      let joined : lang (alter (re_nub (re_sort items))) w ≡ (lang r w || lang s w) =
        unfold lang in
        any_lang-nub (re_sort items) w
        ∙ any_lang-sort items w
        ∙ any_lang-append (alter_items r) (alter_items s) w
        ∙ ap₂ ◌||◌ (any_lang-items r w) (any_lang-items s w) in
      let swapped : lang (or_helper (alter_helper s r) (alter (re_nub (re_sort items)))) w
          ≡ (lang s w || lang r w) =
        alter_helper-lang s r (alter (re_nub (re_sort items))) w (ground (arith, joined)) in
      rw e (
        alter_helper-lang r s (or_helper (alter_helper s r) (alter (re_nub (re_sort items)))) w
          (ground (arith, swapped)))
]

-- Smart intersection has the words that both expressions have.
pub smart_inters-lang : (r s : Re) (w : Word) → lang (smart_inters r s) w ≡ (lang r w && lang s w)
unfolding smart_inters
smart_inters-lang r s w = elim (Bool-cases (re_eq r s)) [
  | inl e ↦
      let same : lang r w ≡ lang s w = ap (λ P. P w) (re_eq-lang r s e) in
      let kept : lang (aggregate_metadata r s) w ≡ lang r w =
        ap (λ P. P w) (aggregate_metadata-lang r s) in
      rw e (ground (arith, kept))
  | inr e ↦
      let items = append (inters_items r) (inters_items s) in
      let joined : lang (inters (re_nub (re_sort items))) w ≡ (lang r w && lang s w) =
        unfold lang in
        all_lang-nub (re_sort items) w
        ∙ all_lang-sort items w
        ∙ all_lang-append (inters_items r) (inters_items s) w
        ∙ ap₂ ◌&&◌ (all_lang-items r w) (all_lang-items s w) in
      let swapped : lang (or_helper (inters_helper s r) (inters (re_nub (re_sort items)))) w
          ≡ (lang s w && lang r w) =
        inters_helper-lang s r (inters (re_nub (re_sort items))) w (ground (arith, joined)) in
      rw e (
        inters_helper-lang r s (or_helper (inters_helper s r) (inters (re_nub (re_sort items)))) w
          (ground (arith, swapped)))
]

pub smart_negate-lang : (r : Re) (w : Word) → lang (smart_negate r) w ≡ not (lang r w)
unfolding smart_negate lang
smart_negate-lang (negate r) w = ground arith
smart_negate-lang _ w = refl

-- Smart star has the repetitions of the words of the expression.
pub smart_star-lang : (r : Re) (w : Word) → lang (smart_star r) w ≡ star_lang (lang r) w
unfolding smart_star lang
smart_star-lang (star r) w = smart_star-lang r w ∙ sym (star_lang-star_lang (lang r) w)
smart_star-lang (epsilon m) w = sym (star_lang-is_nil w)
smart_star-lang (empty m) w = sym (star_lang-none w)
smart_star-lang _ w = refl

join_concat-lang : (r s : Re) (w : Word) → lang (join_concat r s) w ≡ conc (lang r) (lang s) w
unfolding lang
join_concat-lang (empty m) s w = sym (conc_none (lang s) w)
join_concat-lang r (empty m) w = sym (conc-none_right (lang r) w)
join_concat-lang (epsilon m) s w = sym (conc-is_nil_left (lang s) w)
join_concat-lang r (epsilon m) w = sym (conc-is_nil_right (lang r) w)
join_concat-lang r s w = refl

-- Smart concatenation has the concatenations of words of the two expressions.
pub smart_concat-lang : (r s : Re) (w : Word) → lang (smart_concat r s) w ≡ conc (lang r) (lang s) w
unfolding smart_concat lang
smart_concat-lang (concat r1 r2) s w =
    smart_concat-lang r1 (smart_concat r2 s) w
    ∙ ap (λ Q. conc (lang r1) Q w) (fun_ext (smart_concat-lang r2 s))
    ∙ sym (conc_assoc (lang r1) (lang r2) (lang s) w)
smart_concat-lang r s w = join_concat-lang r s w
