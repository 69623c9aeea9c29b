-- ===== src/Classifier/Outcome.antt =====
-- The outcome of a classifier on a packet, and of the composed and inverted classifiers.
use mathlib.Core.List.{append-nil}
use pyretic.Base.{none, some, List, [], ◌∷◌, ◌++◌, ◌≡◌, refl, sym, ◌∙◌, subst, arith, All}
use pyretic.Packet.{Packet, ModifyMap, modifymany}
use pyretic.Ipaddr.{Ipaddr}
use pyretic.Action.{
  Action, modify, controller, query, Event, emit, collect, raised, action_eval, union, rule_bucket,
}
use pyretic.Action.Events.{SameViews, SameViews-refl, and_then}
use pyretic.Classifier.{
  Classifier, lookup, eval, actions_eval, sequence_actions, modify_actions, sequence_all, sequence,
  add,
}
use pyretic.Classifier.Lookup.{lookup-All, UntaggedRules, eval-eq-run}
use pyretic.Classifier.Optimize.{lookup-optimize}
use pyretic.Classifier.Parallel.{lookup-add}
use pyretic.Classifier.Commute.{PlainModify, modify_eval-plain}
use pyretic.Classifier.Sequence.{
  AtMostOne, Plain, PlainAction, Plain-UntaggedRules, found, step, lookup-sequence_all,
}
use pyretic.Classifier.Inherit.{sequence_all-Plain}
-- An action of the set shows the view.
use pyretic.Classifier.Actions.{actions_eval-union, modify_actions-views}

module _ ⦃i : Ipaddr⦄ where
  -- Every packet meets a rule.
  abbrev pub Total : Classifier → Type 0
  Total c = (pkt : Packet) → (acts : List Action) × (lookup c pkt ≡ some acts)

  -- Classifier.eval, with its TypeError as an event.
  unfoldable pub outcome : Classifier → Packet → List Event
  outcome c pkt = elim (eval c pkt) [ none ↦ raised ∷ [] | some es ↦ es ]

  pub outcome-eq :
      (c : Classifier) (pkt : Packet) {acts : List Action}
      → lookup c pkt ≡ some acts
      → outcome c pkt ≡ actions_eval acts pkt
  unfolding outcome
  outcome-eq c pkt h = ground (arith, eval-eq-run c pkt)

  -- On every packet, the outcome of the sum of two total classifiers without tagging headers shows
  -- what the two outcomes show.
  pub outcome-add :
      (c1 c2 : Classifier) (pkt : Packet)
      → UntaggedRules c1
      → UntaggedRules c2
      → Total c1
      → Total c2
      → SameViews (outcome (add c1 c2) pkt) (outcome c1 pkt ++ outcome c2 pkt)
  outcome-add c1 c2 pkt u1 u2 t1 t2 =
      let (a, h1) = t1 pkt in
      let (b, h2) = t2 pkt in
      rw
        (
          outcome-eq (add c1 c2) pkt (lookup-add c1 c2 pkt u1 u2 h1 h2),
          outcome-eq c1 pkt h1,
          outcome-eq c2 pkt h2,
        )
        (actions_eval-union a b pkt)

  pub add-Total :
      (c1 c2 : Classifier)
      → UntaggedRules c1
      → UntaggedRules c2
      → Total c1
      → Total c2
      → Total (add c1 c2)
  add-Total c1 c2 u1 u2 t1 t2 pkt =
      let (a, h1) = t1 pkt in let (b, h2) = t2 pkt in (union a b, lookup-add c1 c2 pkt u1 u2 h1 h2)

  lookup-sequence :
      (c1 c2 : Classifier) (pkt : Packet) {acts bs : List Action}
      → All Plain c1
      → All Plain c2
      → All (λ r. AtMostOne r.actions) c1
      → lookup c1 pkt ≡ some acts
      → step acts c2 pkt ≡ some bs
      → lookup (sequence c1 c2) pkt ≡ some bs
  unfolding sequence
  lookup-sequence c1 c2 pkt p1 p2 one h k =
      lookup-optimize (sequence_all c1 c2) pkt
        (Plain-UntaggedRules (sequence_all c1 c2) (sequence_all-Plain c1 c2 one p1 p2))
      ∙ lookup-sequence_all c1 c2 pkt p1 one (Plain-UntaggedRules c2 p2) h k

  -- What the actions of the composition do, and that there are some.
  abbrev Continues : List Action → Classifier → Packet → Type 0
  Continues acts c2 pkt =
      (bs : List Action) × (step acts c2 pkt ≡ some bs)
      × SameViews (actions_eval bs pkt) (and_then (actions_eval acts pkt) (outcome c2))

  rules_actions : (c : Classifier) → All Plain c → All (λ r. All PlainAction r.actions) c
  rules_actions [] h = tt
  rules_actions (r ∷ c) (h, hs) = (h.plain, rules_actions c hs)

  modify_continues :
      (m : ModifyMap) (c2 : Classifier) (pkt : Packet) {bs : List Action}
      → PlainModify m
      → All Plain c2
      → lookup c2 (modifymany pkt m) ≡ some bs
      → SameViews
          (actions_eval (modify_actions m bs) pkt)
          (and_then (emit (modifymany pkt m) ∷ []) (outcome c2))
  unfolding and_then
  modify_continues m c2 pkt {bs} pm p2 h =
      rw (append-nil, outcome-eq c2 (modifymany pkt m) h)
        (modify_actions-views m bs pkt pm
          (lookup-All (All PlainAction) c2 (modifymany pkt m) (rules_actions c2 p2) h))

  no_rule_found : Total [] → Packet → ⊥
  unfolding lookup
  no_rule_found t pkt = let (acts, h) = t pkt in ground arith

  continues :
      (acts : List Action) (c2 : Classifier) (pkt : Packet)
      → AtMostOne acts
      → All PlainAction acts
      → All Plain c2
      → Total c2
      → Continues acts c2 pkt
  unfolding step found actions_eval action_eval and_then sequence_actions
  continues [] c2 pkt one pa p2 t2 = ([], refl, SameViews-refl [])
  continues (Action.identity ∷ []) c2 pkt one pa p2 t2 =
      let (bs, h) = t2 pkt in
      (bs, rw h, rw (append-nil, outcome-eq c2 pkt h) (SameViews-refl (actions_eval bs pkt)))
  continues (modify m ∷ []) c2 pkt one (pm, _) p2 t2 =
      let (bs, h) = t2 (modifymany pkt m) in
      (
        modify_actions m bs,
        rw h,
        subst
            (λ e.
              SameViews (actions_eval (modify_actions m bs) pkt) (and_then (e ∷ []) (outcome c2)))
            (sym (modify_eval-plain m pkt pm)) (modify_continues m c2 pkt pm p2 h),
      )
  continues (controller ∷ []) [] pkt one pa p2 t2 = absurd (no_rule_found t2 pkt)
  continues (controller ∷ []) (_ ∷ _) pkt one pa p2 t2 = (controller ∷ [], refl, SameViews-refl [])
  continues (query b ∷ []) [] pkt one pa p2 t2 = absurd (no_rule_found t2 pkt)
  continues (query b ∷ []) (_ ∷ _) pkt one pa p2 t2 =
      (query b ∷ [], refl, SameViews-refl (collect (rule_bucket b) pkt ∷ []))
  continues (a ∷ b ∷ acts) c2 pkt one pa p2 t2 = absurd one

  pub sequence-Total :
      (c1 c2 : Classifier)
      → All Plain c1
      → All Plain c2
      → All (λ r. AtMostOne r.actions) c1
      → Total c1
      → Total c2
      → (pkt : Packet)
      → (bs : List Action) × (lookup (sequence c1 c2) pkt ≡ some bs)
        × SameViews (actions_eval bs pkt) (and_then (outcome c1 pkt) (outcome c2))
  sequence-Total c1 c2 p1 p2 one t1 t2 pkt =
      let (acts, h1) = t1 pkt in
      let (bs, k, same) =
        continues acts c2 pkt (lookup-All AtMostOne c1 pkt one h1)
          (lookup-All (All PlainAction) c1 pkt (rules_actions c1 p1) h1) p2 t2 in
      (bs, lookup-sequence c1 c2 pkt p1 p2 one h1 k, rw (outcome-eq c1 pkt h1) same)

  -- After a total classifier whose rules have one action at most, the outcome of the sequential
  -- composition shows what the second classifier shows on each packet that the first returns, and
  -- what the first shows besides. No rule may mention tagging headers, or set an IP address.
  pub outcome-sequence :
      (c1 c2 : Classifier) (pkt : Packet)
      → All Plain c1
      → All Plain c2
      → All (λ r. AtMostOne r.actions) c1
      → Total c1
      → Total c2
      → SameViews (outcome (sequence c1 c2) pkt) (and_then (outcome c1 pkt) (outcome c2))
  outcome-sequence c1 c2 pkt p1 p2 one t1 t2 =
      let (bs, h, same) = sequence-Total c1 c2 p1 p2 one t1 t2 pkt in
      rw (outcome-eq (sequence c1 c2) pkt h) same
