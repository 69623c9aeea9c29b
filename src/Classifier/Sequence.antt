-- ===== src/Classifier/Sequence.antt =====
-- Sequential composition, after a classifier whose rules have one action at most.
use pyretic.Base.{
  subst, Bool, true, ◌&&◌, Option, none, some, List, [], ◌∷◌, ◌≡◌, refl, ◌∙◌, ap, arith, All,
  Bool-cases, inl, inr, if◌then◌else◌,
}
use pyretic.Packet.{Packet, modifymany}
use pyretic.Ipaddr.{Ipaddr}
use pyretic.Match.{Pred, drop, pred_eval, pred_eq, intersect}
use pyretic.Match.Meaning.{UntaggedPred}
use pyretic.Match.Intersect.{intersect-eval}
use pyretic.Action.{Action, modify, controller, query}
use pyretic.Classifier.{
  Rule, Classifier, lookup, sequence_actions, commute_test, cross_rules, cross_round, rules_of,
  sequence_one, sequence_rule, sequence_all,
}
use pyretic.Classifier.Lookup.{UntaggedRules, lookup-append}
use pyretic.Classifier.Parallel.{drop-rejects}
use pyretic.Classifier.Commute.{PlainModify, commute_test-eval, commute_test-UntaggedPred}

-- Modifications are of plain headers.
abbrev pub PlainAction : Action → Type 0
PlainAction (modify m) = PlainModify m
PlainAction _ = Unit

abbrev pub AtMostOne : List Action → Type 0
AtMostOne [] = Unit
AtMostOne (a ∷ []) = Unit
AtMostOne _ = ⊥

abbrev mapped : Action → Option (List Action) → Option (List Action)
mapped a none = none
mapped a (some acts) = some (sequence_actions a acts)

abbrev guarded : Bool → Option (List Action) → Option (List Action)
guarded b o = if b then o else none

module _ ⦃i : Ipaddr⦄ where
  -- No tagging header is matched on, and the modifications are plain.
  pub record Plain (r : Rule) : Type 0 where
    pub untagged : UntaggedPred r.mat
    pub plain : All PlainAction r.actions

  pub Plain-UntaggedRules : (c : Classifier) → All Plain c → UntaggedRules c
  Plain-UntaggedRules [] h = tt
  Plain-UntaggedRules (r ∷ c) (h, hs) = (h.untagged, Plain-UntaggedRules c hs)

  -- The actions that one action leads to in the second classifier.
  unfoldable pub found : Action → Classifier → Packet → Option (List Action)
  found Action.identity c2 pkt = mapped Action.identity (lookup c2 pkt)
  found (modify m) c2 pkt = mapped (modify m) (lookup c2 (modifymany pkt m))
  found a [] pkt = none
  found a (_ ∷ _) pkt = some (a ∷ [])

  unfoldable pub step : List Action → Classifier → Packet → Option (List Action)
  step [] c2 pkt = some []
  step (a ∷ _) c2 pkt = found a c2 pkt

  abbrev single : Pred → Action → Rule
  single p a = record { mat = p; actions = a ∷ [] }

  pub commute-UntaggedPred :
      (a : Action) (q : Pred) → PlainAction a → UntaggedPred q → UntaggedPred (commute_test a q)
  unfolding commute_test
  commute-UntaggedPred Action.identity q pa uq = uq
  commute-UntaggedPred (modify m) q pa uq =
      unfold commute_test in commute_test-UntaggedPred m q pa uq
  commute-UntaggedPred controller q pa uq = tt
  commute-UntaggedPred (query b) q pa uq = tt

  lookup-cross_rules :
      (p : Pred) (a : Action) (r2 : Rule) (pkt : Packet)
      → UntaggedPred p
      → PlainAction a
      → UntaggedPred r2.mat
      → lookup (rules_of (cross_rules (single p a) r2)) pkt
        ≡ guarded
            (pred_eval p pkt && pred_eval (commute_test a r2.mat) pkt)
            (some (sequence_actions a r2.actions))
  unfolding cross_rules cross_round lookup
  lookup-cross_rules p a r2 pkt up pa u2 =
      let t = commute_test a r2.mat in
      let meets = intersect-eval p t pkt up (commute-UntaggedPred a r2.mat pa u2) in
      elim (Bool-cases (pred_eq (intersect p t) drop)) [
        | inl e ↦ rw e (ground (arith, meets, drop-rejects (intersect p t) pkt e))
        | inr e ↦ rw e (ground (arith, meets))
      ]

  -- The commuted test, on each kind of action.
  abbrev lands : Action → Pred → Packet → Bool
  lands Action.identity q pkt = pred_eval q pkt
  lands (modify m) q pkt = pred_eval q (modifymany pkt m)
  lands _ q pkt = true

  commute-lands :
      (a : Action) (q : Pred) (pkt : Packet)
      → PlainAction a
      → UntaggedPred q
      → pred_eval (commute_test a q) pkt ≡ lands a q pkt
  commute-lands Action.identity q pkt pa uq = unfold commute_test in refl
  commute-lands (modify m) q pkt pa uq = commute_test-eval m q pkt pa uq
  commute-lands controller q pkt pa uq = unfold commute_test pred_eval in refl
  commute-lands (query b) q pkt pa uq = unfold commute_test pred_eval in refl

  lookup-sequence_one :
      (p : Pred) (a : Action) (c2 : Classifier) (pkt : Packet)
      → UntaggedPred p
      → PlainAction a
      → UntaggedRules c2
      → lookup (sequence_one (single p a) c2) pkt ≡ guarded (pred_eval p pkt) (found a c2 pkt)
  unfolding sequence_one found lookup sequence_actions
  lookup-sequence_one p Action.identity [] pkt up pa u2 = ground arith
  lookup-sequence_one p (modify m) [] pkt up pa u2 = ground arith
  lookup-sequence_one p controller [] pkt up pa u2 = ground arith
  lookup-sequence_one p (query b) [] pkt up pa u2 = ground arith
  lookup-sequence_one p Action.identity (r2 ∷ c2) pkt up pa (ur, u2) =
      let a = Action.identity in
      ground (
        arith,
        lookup-append (rules_of (cross_rules (single p a) r2)) (sequence_one (single p a) c2) pkt,
        lookup-cross_rules p a r2 pkt up pa ur,
        commute-lands a r2.mat pkt pa ur,
        lookup-sequence_one p a c2 pkt up pa u2,
      )
  lookup-sequence_one p a (r2 ∷ c2) pkt up pa (ur, u2) = ground (
    arith,
    lookup-append (rules_of (cross_rules (single p a) r2)) (sequence_one (single p a) c2) pkt,
    lookup-cross_rules p a r2 pkt up pa ur,
    commute-lands a r2.mat pkt pa ur,
    lookup-sequence_one p a c2 pkt up pa u2,
  )

  lookup-sequence_rule :
      (r1 : Rule) (acts : List Action) (c2 : Classifier) (pkt : Packet)
      → r1.actions ≡ acts
      → Plain r1
      → AtMostOne acts
      → UntaggedRules c2
      → lookup (sequence_rule r1 acts c2) pkt ≡ guarded (pred_eval r1.mat pkt) (step acts c2 pkt)
  unfolding step lookup
  lookup-sequence_rule r1 [] c2 pkt e pr one u2 = ground arith
  lookup-sequence_rule r1 (a ∷ []) c2 pkt e pr one u2 =
      let pa : All PlainAction (a ∷ []) = subst (All PlainAction) e pr.plain in
      ap (λ as'. lookup (sequence_one (record { mat = r1.mat; actions = as' }) c2) pkt) e
      ∙ lookup-sequence_one r1.mat a c2 pkt pr.untagged pa.0 u2
  lookup-sequence_rule r1 (a ∷ b ∷ bs) c2 pkt e pr one u2 = absurd one

  pub lookup-sequence_all :
      (c1 c2 : Classifier) (pkt : Packet) {acts : List Action} {bs : List Action}
      → All Plain c1
      → All (λ r. AtMostOne r.actions) c1
      → UntaggedRules c2
      → lookup c1 pkt ≡ some acts
      → step acts c2 pkt ≡ some bs
      → lookup (sequence_all c1 c2) pkt ≡ some bs
  unfolding lookup sequence_all
  lookup-sequence_all [] c2 pkt {acts} {bs} p1 one u2 h k = cc
  lookup-sequence_all (r1 ∷ c1) c2 pkt {acts} {bs} (pr, p1) (one, ones) u2 h k = ground (
    arith,
    lookup-append (sequence_rule r1 r1.actions c2) (sequence_all c1 c2) pkt,
    lookup-sequence_rule r1 r1.actions c2 pkt refl pr one u2,
    lookup-sequence_all c1 c2 pkt {acts = acts} {bs = bs} p1 ones u2,
  )
