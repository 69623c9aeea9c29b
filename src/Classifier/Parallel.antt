-- ===== src/Classifier/Parallel.antt =====
-- Parallel composition: the product of two classifiers looks up in both.
use pyretic.Base.{
  All, All-append, true, false, Option, none, some, List, [], ◌∷◌, ◌≡◌, refl, ◌∙◌, ap₂, arith,
  Bool-cases, inl, inr, if◌then◌else◌,
}
use pyretic.Packet.{Packet}
use pyretic.Ipaddr.{Ipaddr}
use pyretic.Match.{Pred, identity, drop, match, pred_eval, pred_eq, intersect}
use pyretic.Match.Meaning.{UntaggedPred}
use pyretic.Match.Intersect.{intersect-eval, intersect-UntaggedPred}
use pyretic.Action.{Action, union}
use pyretic.Classifier.{
  Rule, Classifier, lookup, cross, cross_one, cross_all, drop_all_if_empty, add,
}
use pyretic.Classifier.Lookup.{UntaggedRules, lookup-append}
use pyretic.Classifier.Optimize.{lookup-optimize, optimize-All}

-- The union of two sets of actions that are both there.
abbrev pub both : Option (List Action) → Option (List Action) → Option (List Action)
both (some a) (some b) = some (union a b)
both _ _ = none

module _ ⦃i : Ipaddr⦄ where
  pub is_drop : (p : Pred) → pred_eq p drop ≡ true → p ≡ drop
  unfolding pred_eq
  is_drop identity h = ground arith
  is_drop drop h = refl
  is_drop (match m) h = ground arith

  pub drop-rejects : (p : Pred) (pkt : Packet) → pred_eq p drop ≡ true → pred_eval p pkt ≡ false
  unfolding pred_eval pred_eq
  drop-rejects identity pkt h = ground arith
  drop-rejects drop pkt h = refl
  drop-rejects (match m) pkt h = ground arith

  abbrev hit : Rule → Packet → Option (List Action)
  hit r pkt = if pred_eval r.mat pkt then some r.actions else none

  lookup-cross :
      (r1 r2 : Rule) (pkt : Packet)
      → UntaggedPred r1.mat
      → UntaggedPred r2.mat
      → lookup (cross r1 r2) pkt ≡ both (hit r1 pkt) (hit r2 pkt)
  unfolding lookup cross
  lookup-cross r1 r2 pkt u1 u2 =
      ground
        (arith, intersect-eval r1.mat r2.mat pkt u1 u2, drop-rejects (intersect r1.mat r2.mat) pkt)

  lookup-cross_one :
      (r1 : Rule) (c2 : Classifier) (pkt : Packet)
      → UntaggedPred r1.mat
      → UntaggedRules c2
      → lookup (cross_one r1 c2) pkt ≡ both (hit r1 pkt) (lookup c2 pkt)
  unfolding lookup cross_one
  lookup-cross_one r1 [] pkt u1 u2 = ground arith
  lookup-cross_one r1 (r2 ∷ c2) pkt u1 (ur, u2) = ground (
    arith,
    lookup-append (cross r1 r2) (cross_one r1 c2) pkt,
    lookup-cross r1 r2 pkt u1 ur,
    lookup-cross_one r1 c2 pkt u1 u2,
  )

  pub lookup-cross_all :
      (c1 c2 : Classifier) (pkt : Packet)
      → UntaggedRules c1
      → UntaggedRules c2
      → lookup (cross_all c1 c2) pkt ≡ both (lookup c1 pkt) (lookup c2 pkt)
  unfolding lookup cross_all
  lookup-cross_all [] c2 pkt u1 u2 = refl
  lookup-cross_all (r1 ∷ c1) c2 pkt (ur, u1) u2 = ground (
    arith,
    lookup-append (cross_one r1 c2) (cross_all c1 c2) pkt,
    lookup-cross_one r1 c2 pkt ur u2,
    lookup-cross_all c1 c2 pkt u1 u2,
  )

  module _ (P : Rule → Type 0) (closed : (r1 r2 : Rule) → P r1 → P r2 → All P (cross r1 r2))
      (dropped : P (record { mat = identity; actions = [] })) where
    cross_one-All : (r1 : Rule) (c2 : Classifier) → P r1 → All P c2 → All P (cross_one r1 c2)
    unfolding cross_one
    cross_one-All r1 [] u1 u2 = tt
    cross_one-All r1 (r2 ∷ c2) u1 (ur, u2) =
        All-append P (cross r1 r2) (cross_one r1 c2) (closed r1 r2 u1 ur)
          (cross_one-All r1 c2 u1 u2)

    cross_all-All : (c1 c2 : Classifier) → All P c1 → All P c2 → All P (cross_all c1 c2)
    unfolding cross_all
    cross_all-All [] c2 u1 u2 = tt
    cross_all-All (r1 ∷ c1) c2 (ur, u1) u2 =
        All-append P (cross_one r1 c2) (cross_all c1 c2) (cross_one-All r1 c2 ur u2)
          (cross_all-All c1 c2 u1 u2)

    add_head-All : (c : Classifier) → All P c → All P (drop_all_if_empty c)
    add_head-All [] u = (dropped, tt)
    add_head-All (r ∷ c) u = optimize-All P (r ∷ c) u

    pub add-All : (c1 c2 : Classifier) → All P c1 → All P c2 → All P (add c1 c2)
    unfolding add
    add-All c1 c2 u1 u2 = add_head-All (cross_all c1 c2) (cross_all-All c1 c2 u1 u2)

  cross-UntaggedRules :
      (r1 r2 : Rule) → UntaggedPred r1.mat → UntaggedPred r2.mat → UntaggedRules (cross r1 r2)
  unfolding cross
  cross-UntaggedRules r1 r2 u1 u2 = elim (Bool-cases (pred_eq (intersect r1.mat r2.mat) drop)) [
    | inl e ↦ rw e tt
    | inr e ↦ rw e (intersect-UntaggedPred r1.mat r2.mat u1 u2, tt)
  ]

  -- Where the product has a rule for the packet, the sum has its actions.
  lookup-drop_all :
      (c : Classifier) (pkt : Packet) {acts : List Action}
      → UntaggedRules c
      → lookup c pkt ≡ some acts
      → lookup (drop_all_if_empty c) pkt ≡ some acts
  unfolding lookup
  lookup-drop_all [] pkt u h = cc
  lookup-drop_all (r ∷ c) pkt u h = lookup-optimize (r ∷ c) pkt u ∙ h

  pub lookup-add :
      (c1 c2 : Classifier) (pkt : Packet) {a b : List Action}
      → UntaggedRules c1
      → UntaggedRules c2
      → lookup c1 pkt ≡ some a
      → lookup c2 pkt ≡ some b
      → lookup (add c1 c2) pkt ≡ some (union a b)
  unfolding add
  lookup-add c1 c2 pkt u1 u2 h1 h2 =
      lookup-drop_all (cross_all c1 c2) pkt
        (cross_all-All (λ r. UntaggedPred r.mat) cross-UntaggedRules tt c1 c2 u1 u2)
        (lookup-cross_all c1 c2 pkt u1 u2 ∙ ap₂ both h1 h2)
