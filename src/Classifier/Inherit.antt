-- ===== src/Classifier/Inherit.antt =====
-- What the rules of a sequential composition inherit from the rules that are composed.
use pyretic.Base.{none, List, [], ◌∷◌, ◌≡◌, refl, subst, All, All-append, Bool-cases, inl, inr}
use pyretic.Packet.{ModifyMap}
use pyretic.Ipaddr.{Ipaddr}
use pyretic.Match.{drop, pred_eq, intersect}
use pyretic.Match.Intersect.{intersect-UntaggedPred}
use pyretic.Action.{Action, modify, controller, query, insert, contains}
use pyretic.Classifier.{
  Rule, Classifier, sequence_actions, modify_actions, then_modify, commute_test, cross_actions,
  cross_rules, rules_of, sequence_one, sequence_rule, sequence_all, sequence,
}
use pyretic.Classifier.Optimize.{optimize-All}
use pyretic.Classifier.Commute.{PlainModify}
use pyretic.Classifier.Sequence.{AtMostOne, Plain, PlainAction, commute-UntaggedPred}

pub insert-All :
    (P : Action → Type 0) (a : Action) (xs : List Action) → P a → All P xs → All P (insert a xs)
unfolding insert
insert-All P a xs h hs = elim (Bool-cases (contains xs a)) [
  | inl e ↦ rw e hs
  | inr e ↦ rw e (h, hs)
]

pub then_modify-PlainAction :
    (m : ModifyMap) (a : Action) → PlainModify m → PlainAction a → PlainAction (then_modify m a)
then_modify-PlainAction m Action.identity pm pa = pm
then_modify-PlainAction m (modify n) pm pa = record {
  no_tag = λ t. rw (pa.no_tag t) (pm.no_tag t);
  no_ip = λ f. rw (pa.no_ip f) (pm.no_ip f);
}
then_modify-PlainAction m controller pm pa = tt
then_modify-PlainAction m (query b) pm pa = tt

modify_actions-PlainAction :
    (m : ModifyMap) (as2 : List Action)
    → PlainModify m
    → All PlainAction as2
    → All PlainAction (modify_actions m as2)
unfolding modify_actions
modify_actions-PlainAction m [] pm ps = tt
modify_actions-PlainAction m (a ∷ as2) pm (pa, ps) =
    insert-All PlainAction (then_modify m a) (modify_actions m as2)
      (then_modify-PlainAction m a pm pa) (modify_actions-PlainAction m as2 pm ps)

pub sequence_actions-PlainAction :
    (a : Action) (as2 : List Action)
    → PlainAction a
    → All PlainAction as2
    → All PlainAction (sequence_actions a as2)
unfolding sequence_actions
sequence_actions-PlainAction Action.identity as2 pa ps = ps
sequence_actions-PlainAction (modify m) as2 pa ps =
    unfold sequence_actions in modify_actions-PlainAction m as2 pa ps
sequence_actions-PlainAction controller as2 pa ps = (tt, tt)
sequence_actions-PlainAction (query b) as2 pa ps = (tt, tt)

pub sequence_actions-AtMostOne :
    (a : Action) (as2 : List Action) → AtMostOne as2 → AtMostOne (sequence_actions a as2)
unfolding sequence_actions insert contains
sequence_actions-AtMostOne Action.identity as2 h = h
sequence_actions-AtMostOne (modify m) [] h = tt
sequence_actions-AtMostOne (modify m) (a ∷ []) h = tt
sequence_actions-AtMostOne (modify m) (a ∷ b ∷ as2) h = absurd h
sequence_actions-AtMostOne controller as2 h = tt
sequence_actions-AtMostOne (query b) as2 h = tt

module _ ⦃i : Ipaddr⦄ where
  -- `P` holds of the rule that _cross_act makes for the one action of its first rule.
  abbrev pub Closed : (Rule → Type 0) → Type 0
  Closed P =
      (r1 r2 : Rule) (a : Action)
      → r1.actions ≡ a ∷ []
      → P r1
      → P r2
      → P (record {
        mat = intersect r1.mat (commute_test a r2.mat);
        actions = sequence_actions a r2.actions;
      })

  module _ (P : Rule → Type 0) (closed : Closed P) where
    cross_actions-All :
        (r1 : Rule) (a : Action) (r2 : Rule)
        → r1.actions ≡ a ∷ []
        → P r1
        → P r2
        → All P (rules_of (cross_actions none r1 (a ∷ []) r2))
    unfolding cross_actions
    cross_actions-All r1 a r2 e p1 p2 =
        elim (Bool-cases (pred_eq (intersect r1.mat (commute_test a r2.mat)) drop)) [
          | inl h ↦ rw h tt
          | inr h ↦ rw h (closed r1 r2 a e p1 p2, tt)
        ]

    sequence_one-All :
        (r1 : Rule) (a : Action) (c2 : Classifier)
        → r1.actions ≡ a ∷ []
        → P r1
        → All P c2
        → All P (sequence_one r1 c2)
    unfolding sequence_one
    sequence_one-All r1 a [] e p1 p2 = tt
    sequence_one-All r1 a (r2 ∷ c2) e p1 (pr, p2) =
        All-append P (rules_of (cross_rules r1 r2)) (sequence_one r1 c2)
          (unfold cross_rules in rw e (cross_actions-All r1 a r2 e p1 pr))
          (sequence_one-All r1 a c2 e p1 p2)

    sequence_rule-All :
        (r1 : Rule) (acts : List Action) (c2 : Classifier)
        → r1.actions ≡ acts
        → AtMostOne acts
        → P r1
        → All P c2
        → All P (sequence_rule r1 acts c2)
    sequence_rule-All r1 [] c2 e one p1 p2 = (p1, tt)
    sequence_rule-All r1 (a ∷ []) c2 e one p1 p2 = sequence_one-All r1 a c2 e p1 p2
    sequence_rule-All r1 (a ∷ b ∷ bs) c2 e one p1 p2 = absurd one

    sequence_all-All :
        (c1 c2 : Classifier)
        → All (λ r. AtMostOne r.actions) c1
        → All P c1
        → All P c2
        → All P (sequence_all c1 c2)
    unfolding sequence_all
    sequence_all-All [] c2 one p1 p2 = tt
    sequence_all-All (r1 ∷ c1) c2 (one, ones) (pr, p1) p2 =
        All-append P (sequence_rule r1 r1.actions c2) (sequence_all c1 c2)
          (sequence_rule-All r1 r1.actions c2 refl one pr p2) (sequence_all-All c1 c2 ones p1 p2)

    pub sequence-All :
        (c1 c2 : Classifier)
        → All (λ r. AtMostOne r.actions) c1
        → All P c1
        → All P c2
        → All P (sequence c1 c2)
    unfolding sequence
    sequence-All c1 c2 one p1 p2 =
        optimize-All P (sequence_all c1 c2) (sequence_all-All c1 c2 one p1 p2)

  Plain-Closed : Closed Plain
  Plain-Closed r1 r2 a e p1 p2 =
      let pa : All PlainAction (a ∷ []) = subst (All PlainAction) e p1.plain in
      record {
        untagged =
            intersect-UntaggedPred r1.mat (commute_test a r2.mat) p1.untagged
              (commute-UntaggedPred a r2.mat pa.0 p2.untagged);
        plain = sequence_actions-PlainAction a r2.actions pa.0 p2.plain;
      }

  AtMostOne-Closed : Closed (λ r. AtMostOne r.actions)
  AtMostOne-Closed r1 r2 a e p1 p2 = sequence_actions-AtMostOne a r2.actions p2

  pub sequence_all-Plain :
      (c1 c2 : Classifier)
      → All (λ r. AtMostOne r.actions) c1
      → All Plain c1
      → All Plain c2
      → All Plain (sequence_all c1 c2)
  sequence_all-Plain = sequence_all-All Plain Plain-Closed

  pub sequence-Plain :
      (c1 c2 : Classifier)
      → All (λ r. AtMostOne r.actions) c1
      → All Plain c1
      → All Plain c2
      → All Plain (sequence c1 c2)
  sequence-Plain = sequence-All Plain Plain-Closed

  pub sequence-AtMostOne :
      (c1 c2 : Classifier)
      → All (λ r. AtMostOne r.actions) c1
      → All (λ r. AtMostOne r.actions) c2
      → All (λ r. AtMostOne r.actions) (sequence c1 c2)
  sequence-AtMostOne c1 c2 one =
      sequence-All (λ r. AtMostOne r.actions) AtMostOne-Closed c1 c2 one one
