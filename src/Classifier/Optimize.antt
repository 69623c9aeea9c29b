-- ===== src/Classifier/Optimize.antt =====
-- The removal of covered rules keeps what a classifier does.
use mathlib.Core.List.{append_assoc, append-nil}
use pyretic.Base.{
  All, All-append, true, some, List, [], ◌∷◌, ◌++◌, ◌≡◌, sym, ◌∙◌, ap, arith, Bool-cases, inl, inr,
  any, Bool, Option, none, refl, all_intro,
}
use pyretic.Packet.{Field, ip, header, tag, all_fields, Packet}
use pyretic.Ipaddr.{Ipaddr}
use pyretic.Match.{
  PatternOf, Pred, identity, drop, match, pred_eval, pred_eq, map_eq, same_at, covers_at, covers,
}
use pyretic.Match.Meaning.{UntaggedPred, match_eval-empty, all_fields-In}
use pyretic.Match.Cover.{covers_sound}
use pyretic.Action.{Action}
use pyretic.Classifier.{Rule, Classifier, lookup, eval, remove_shadowed, remove_equal, optimize}
use pyretic.Classifier.Lookup.{or_else, run, UntaggedRules, lookup-append, eval-eq-run}

module _ ⦃i : Ipaddr⦄ where
  -- A test on predicates under which the second lets pass no more than the first.
  module _ (test : Pred → Pred → Bool)
      (sound : (p q : Pred) (pkt : Packet)
        → UntaggedPred p
        → test p q ≡ true
        → pred_eval q pkt ≡ true
        → pred_eval p pkt ≡ true) where
    -- A rule in `opt` matches what the covered rule matches.
    lookup-covered :
        (opt : Classifier) (r : Rule) (pkt : Packet)
        → UntaggedRules opt
        → any (λ s. test s.mat r.mat) opt ≡ true
        → pred_eval r.mat pkt ≡ true
        → (acts : List Action) × (lookup opt pkt ≡ some acts)
    unfolding lookup
    lookup-covered [] r pkt u h m = absurd (ground arith)
    lookup-covered (s ∷ opt) r pkt (us, u) h m = elim (Bool-cases (pred_eval s.mat pkt)) [
      | inl e ↦ (s.actions, rw e)
      | inr e ↦ rw e (lookup-covered opt r pkt u (ground (arith, sound s.mat r.mat pkt us)) m)
    ]

    drop_covered :
        (opt : Classifier) (r : Rule) (c : Classifier) (pkt : Packet)
        → UntaggedRules opt
        → any (λ s. test s.mat r.mat) opt ≡ true
        → lookup (opt ++ c) pkt ≡ lookup (opt ++ r ∷ c) pkt
    unfolding lookup
    drop_covered opt r c pkt u h = elim (Bool-cases (pred_eval r.mat pkt)) [
      | inl e ↦
          let (acts, found) = lookup-covered opt r pkt u h e in
          lookup-append opt c pkt
          ∙ ap (λ o. or_else o (lookup c pkt)) found
          ∙ sym (ap (λ o. or_else o (lookup (r ∷ c) pkt)) found)
          ∙ sym (lookup-append opt (r ∷ c) pkt)
      | inr e ↦ simp lookup-append (rw e)
    ]

  pub lookup-remove_shadowed :
      (opt c : Classifier) (pkt : Packet)
      → UntaggedRules opt
      → UntaggedRules c
      → lookup (remove_shadowed opt c) pkt ≡ lookup (opt ++ c) pkt
  unfolding remove_shadowed
  lookup-remove_shadowed opt [] pkt uo uc = rw append-nil
  lookup-remove_shadowed opt (r ∷ c) pkt uo (ur, uc) =
      elim (Bool-cases (any (λ s. covers s.mat r.mat) opt)) [
        | inl e ↦ rw e (
            lookup-remove_shadowed opt c pkt uo uc
            ∙ drop_covered covers covers_sound opt r c pkt uo e)
        | inr e ↦ rw e (
            lookup-remove_shadowed (opt ++ r ∷ []) c pkt
              (All-append (λ s. UntaggedPred s.mat) opt (r ∷ []) uo (ur, tt)) uc
            ∙ ap (λ d. lookup d pkt) (append_assoc opt (r ∷ []) c))
      ]

  pub lookup-optimize :
      (c : Classifier) (pkt : Packet) → UntaggedRules c → lookup (optimize c) pkt ≡ lookup c pkt
  unfolding optimize
  lookup-optimize c pkt u = lookup-remove_shadowed [] c pkt tt u

  -- On every packet an optimised classifier has the result that it had before, failures included, as
  -- long as no rule mentions a tagging header.
  pub eval-optimize :
      (c : Classifier) (pkt : Packet) → UntaggedRules c → eval (optimize c) pkt ≡ eval c pkt
  eval-optimize c pkt u =
      eval-eq-run (optimize c) pkt
      ∙ ap (λ o. run o pkt) (lookup-optimize c pkt u)
      ∙ sym (eval-eq-run c pkt)

  same_at-covers_at :
      (f : Field) (p q : Option (PatternOf f)) → same_at f p q ≡ true → covers_at f p q ≡ true
  same_at-covers_at f none q h = refl
  same_at-covers_at f (some p) none h = ground arith
  same_at-covers_at (ip f) (some p) (some q) h = ground arith
  same_at-covers_at (header f) (some p) (some q) h = ground arith
  same_at-covers_at (tag f) (some p) (some q) h = ground arith

  pred_eq_sound :
      (p q : Pred) (pkt : Packet)
      → UntaggedPred p
      → pred_eq p q ≡ true
      → pred_eval q pkt ≡ true
      → pred_eval p pkt ≡ true
  unfolding pred_eq pred_eval map_eq
  pred_eq_sound identity q pkt u h k = refl
  pred_eq_sound drop drop pkt u h k = k
  pred_eq_sound drop identity pkt u h k = ground arith
  pred_eq_sound drop (match n) pkt u h k = ground arith
  pred_eq_sound (match m) identity pkt u h k = match_eval-empty m pkt h
  pred_eq_sound (match m) drop pkt u h k = ground arith
  pred_eq_sound (match m) (match n) pkt u h k =
      covers_sound (match m) (match n) pkt u
        (unfold covers in
          all_intro (λ f. covers_at f (m f) (n f)) all_fields
            (λ f. same_at-covers_at f (m f) (n f) (all_fields-In (λ g. same_at g (m g) (n g)) h f)))
        k

  lookup-remove_equal :
      (opt c : Classifier) (pkt : Packet)
      → UntaggedRules opt
      → UntaggedRules c
      → lookup (remove_equal opt c) pkt ≡ lookup (opt ++ c) pkt
  unfolding remove_equal
  lookup-remove_equal opt [] pkt uo uc = rw append-nil
  lookup-remove_equal opt (r ∷ c) pkt uo (ur, uc) =
      elim (Bool-cases (any (λ s. pred_eq s.mat r.mat) opt)) [
        | inl e ↦ rw e (
            lookup-remove_equal opt c pkt uo uc
            ∙ drop_covered pred_eq pred_eq_sound opt r c pkt uo e)
        | inr e ↦ rw e (
            lookup-remove_equal (opt ++ r ∷ []) c pkt
              (All-append (λ s. UntaggedPred s.mat) opt (r ∷ []) uo (ur, tt)) uc
            ∙ ap (λ d. lookup d pkt) (append_assoc opt (r ∷ []) c))
      ]

  -- The removal of the rules whose predicate equals an earlier one's, starting with no rules kept,
  -- changes the result of no packet, failures included, if no rule mentions a tagging header.
  pub eval-remove_equal :
      (c : Classifier) (pkt : Packet) → UntaggedRules c → eval (remove_equal [] c) pkt ≡ eval c pkt
  eval-remove_equal c pkt u =
      eval-eq-run (remove_equal [] c) pkt
      ∙ ap (λ o. run o pkt) (lookup-remove_equal [] c pkt tt u)
      ∙ sym (eval-eq-run c pkt)

  module _ (P : Rule → Type 0) where
    remove_shadowed-All : (opt c : Classifier) → All P opt → All P c → All P (remove_shadowed opt c)
    unfolding remove_shadowed
    remove_shadowed-All opt [] uo uc = uo
    remove_shadowed-All opt (r ∷ c) uo (ur, uc) =
        elim (Bool-cases (any (λ s. covers s.mat r.mat) opt)) [
          | inl e ↦ rw e (remove_shadowed-All opt c uo uc)
          | inr e ↦
              rw e
                (remove_shadowed-All (opt ++ r ∷ []) c (All-append P opt (r ∷ []) uo (ur, tt)) uc)
        ]

    -- What every rule has, every rule that is left has.
    pub optimize-All : (c : Classifier) → All P c → All P (optimize c)
    unfolding optimize
    optimize-All c u = remove_shadowed-All [] c tt u
