-- ===== src/Policy/Good.antt =====
-- What a compiled classifier owes to its policy, and how the compositions keep it.
use pyretic.Base.{arith, List, [], ◌∷◌, ◌++◌, ◌≡◌, refl, All, Bool-cases, inl, inr}
use pyretic.Packet.{Packet}
use pyretic.Ipaddr.{Ipaddr}
use pyretic.Match.{Pred, drop, pred_eval, pred_eq, intersect}
use pyretic.Match.Intersect.{intersect-UntaggedPred}
use pyretic.Action.{Action, Event, action_eq, contains, union}
use pyretic.Action.Events.{SameViews, SameViews-trans, SameViews-append, and_then}
use pyretic.Action.Chain.{and_then-SameViews}
use pyretic.Classifier.{
  Rule, Classifier, lookup, actions_eval, cross, add, sequence, sequence_actions,
}
use pyretic.Classifier.Parallel.{add-All}
use pyretic.Classifier.Sequence.{AtMostOne, Plain, PlainAction, Plain-UntaggedRules}
use pyretic.Classifier.Inherit.{sequence-Plain, sequence-All, insert-All}
use pyretic.Classifier.Outcome.{
  Total, outcome, outcome-eq, outcome-add, outcome-sequence, add-Total, sequence-Total,
}

-- The actions of a filter: pass or drop.
abbrev pub FilterActions : List Action → Type 0
FilterActions [] = Unit
FilterActions (Action.identity ∷ []) = Unit
FilterActions _ = ⊥

pub FilterActions-AtMostOne : (acts : List Action) → FilterActions acts → AtMostOne acts
FilterActions-AtMostOne [] h = tt
FilterActions-AtMostOne (a ∷ []) h = tt
FilterActions-AtMostOne (Action.identity ∷ b ∷ acts) h = absurd h
FilterActions-AtMostOne (a ∷ b ∷ acts) h = absurd h

FilterActions-union :
    (a b : List Action) → FilterActions a → FilterActions b → FilterActions (union a b)
unfolding union contains action_eq
FilterActions-union [] b ha hb = hb
FilterActions-union (Action.identity ∷ []) [] ha hb = tt
FilterActions-union (Action.identity ∷ []) (Action.identity ∷ []) ha hb = tt
FilterActions-union _ _ ha hb = ground arith

module _ ⦃i : Ipaddr⦄ where
  abbrev pub FilterRules : Classifier → Type 0
  FilterRules = All (λ r. FilterActions r.actions)

  abbrev pub OneRules : Classifier → Type 0
  OneRules = All (λ r. AtMostOne r.actions)

  pub FilterRules-OneRules : (c : Classifier) → FilterRules c → OneRules c
  FilterRules-OneRules [] h = tt
  FilterRules-OneRules (r ∷ c) (h, hs) =
      (FilterActions-AtMostOne r.actions h, FilterRules-OneRules c hs)

  -- The classifier is total and plain, and on every packet its outcome shows what `f` shows.
  pub record Good (c : Classifier) (f : Packet → List Event) : Type 0 where
    pub total : Total c
    pub plain : All Plain c
    pub same : (pkt : Packet) → SameViews (outcome c pkt) (f pkt)

  pub Good-single :
      (acts : List Action) (f : Packet → List Event)
      → All PlainAction acts
      → ((pkt : Packet) → SameViews (actions_eval acts pkt) (f pkt))
      → Good (record { mat = Pred.identity; actions = acts } ∷ []) f
  unfolding lookup pred_eval
  Good-single acts f h k = record {
    total = λ pkt. (acts, refl);
    plain = (record { untagged = tt; plain = h }, tt);
    same = λ pkt.
        rw (outcome-eq (record { mat = Pred.identity; actions = acts } ∷ []) pkt refl) (k pkt);
  }

  union-PlainAction :
      (a b : List Action) → All PlainAction a → All PlainAction b → All PlainAction (union a b)
  unfolding union
  union-PlainAction [] b ha hb = hb
  union-PlainAction (x ∷ a) b (hx, ha) hb =
      insert-All PlainAction x (union a b) hx (union-PlainAction a b ha hb)

  cross-Plain : (r1 r2 : Rule) → Plain r1 → Plain r2 → All Plain (cross r1 r2)
  unfolding cross
  cross-Plain r1 r2 p1 p2 = elim (Bool-cases (pred_eq (intersect r1.mat r2.mat) drop)) [
    | inl e ↦ rw e tt
    | inr e ↦ rw e (
      record {
        untagged = intersect-UntaggedPred r1.mat r2.mat p1.untagged p2.untagged;
        plain = union-PlainAction r1.actions r2.actions p1.plain p2.plain;
      },
      tt,
    )
  ]

  pub Good-add :
      (c1 c2 : Classifier) (f g : Packet → List Event)
      → Good c1 f
      → Good c2 g
      → Good (add c1 c2) (λ pkt. f pkt ++ g pkt)
  Good-add c1 c2 f g h1 h2 =
      let u1 = Plain-UntaggedRules c1 h1.plain in
      let u2 = Plain-UntaggedRules c2 h2.plain in
      record {
        total = add-Total c1 c2 u1 u2 h1.total h2.total;
        plain =
            add-All Plain cross-Plain (record { untagged = tt; plain = tt }) c1 c2 h1.plain
              h2.plain;
        same = λ pkt.
            SameViews-trans (outcome (add c1 c2) pkt) (outcome c1 pkt ++ outcome c2 pkt)
              (f pkt ++ g pkt) (outcome-add c1 c2 pkt u1 u2 h1.total h2.total)
              (SameViews-append (outcome c1 pkt) (f pkt) (outcome c2 pkt) (g pkt) (h1.same pkt)
                (h2.same pkt));
      }

  pub Good-sequence :
      (c1 c2 : Classifier) (f g : Packet → List Event)
      → OneRules c1
      → Good c1 f
      → Good c2 g
      → Good (sequence c1 c2) (λ pkt. and_then (f pkt) g)
  Good-sequence c1 c2 f g one h1 h2 = record {
    total = λ pkt.
        let (bs, found, _) = sequence-Total c1 c2 h1.plain h2.plain one h1.total h2.total pkt in
        (bs, found);
    plain = sequence-Plain c1 c2 one h1.plain h2.plain;
    same = λ pkt.
        SameViews-trans (outcome (sequence c1 c2) pkt) (and_then (outcome c1 pkt) (outcome c2))
          (and_then (f pkt) g) (outcome-sequence c1 c2 pkt h1.plain h2.plain one h1.total h2.total)
          (and_then-SameViews (outcome c1 pkt) (f pkt) (outcome c2) g (h1.same pkt) h2.same);
  }

  cross-FilterRules :
      (r1 r2 : Rule)
      → FilterActions r1.actions
      → FilterActions r2.actions
      → FilterRules (cross r1 r2)
  unfolding cross
  cross-FilterRules r1 r2 h1 h2 = elim (Bool-cases (pred_eq (intersect r1.mat r2.mat) drop)) [
    | inl e ↦ rw e tt
    | inr e ↦ rw e (FilterActions-union r1.actions r2.actions h1 h2, tt)
  ]

  pub add-FilterRules :
      (c1 c2 : Classifier) → FilterRules c1 → FilterRules c2 → FilterRules (add c1 c2)
  add-FilterRules = add-All (λ r. FilterActions r.actions) cross-FilterRules tt

  sequence_actions-FilterActions :
      (acts : List Action) (a : Action) (as2 : List Action)
      → acts ≡ a ∷ []
      → FilterActions acts
      → FilterActions as2
      → FilterActions (sequence_actions a as2)
  unfolding sequence_actions
  sequence_actions-FilterActions acts a as2 e h k = single a as2 (rw e at h) k
    where
      single :
          (b : Action) (bs : List Action)
          → FilterActions (b ∷ [])
          → FilterActions bs
          → FilterActions (sequence_actions b bs)
      single Action.identity bs h k = k
      single _ bs h k = absurd h

  pub sequence-FilterRules :
      (c1 c2 : Classifier) → FilterRules c1 → FilterRules c2 → FilterRules (sequence c1 c2)
  sequence-FilterRules c1 c2 h1 h2 =
      sequence-All (λ r. FilterActions r.actions)
        (λ r1 r2 a e k1 k2. sequence_actions-FilterActions r1.actions a r2.actions e k1 k2) c1 c2
        (FilterRules-OneRules c1 h1) h1 h2
