-- ===== src/Classifier.antt =====
-- core/classifier.py: rules, classifiers, and the operations that compose and shorten them.
pub mod Lookup
pub mod Optimize
pub mod Parallel
pub mod Commute
pub mod Sequence
pub mod Inherit
pub mod Actions
pub mod Outcome
use pyretic.Base.{
  Bool, true, false, ◌&&◌, ◌||◌, Option, none, some, List, [], ◌∷◌, ◌++◌, all, any, if◌then◌else◌,
}
use pyretic.Packet.{Field, ip, header, tag, all_fields, Value, option_eq, Packet, ModifyMap}
use pyretic.Ipaddr.{Ipaddr}
use pyretic.Match.{
  PatternOf, MatchMap, Pred, identity, drop, match, is_none, pred_eval, pred_eq, intersect, covers,
}
use pyretic.Action.{Action, modify, controller, query, Event, action_eval, insert, union}

-- The union of the results of the actions.
unfoldable pub actions_eval : List Action → Packet → List Event
actions_eval [] pkt = []
actions_eval (a ∷ as') pkt = action_eval a pkt ++ actions_eval as' pkt

-- The loop over the old actions in _sequence_actions, for a `modify` first.
abbrev then_modify : ModifyMap → Action → Action
then_modify m Action.identity = modify m
then_modify m (modify n) = modify (λ f. elim (n f) [ none ↦ m f | some v ↦ some v ])
then_modify m a = a

unfoldable pub modify_actions : ModifyMap → List Action → List Action
modify_actions m [] = []
modify_actions m (a ∷ as2) = insert (then_modify m a) (modify_actions m as2)

-- _sequence_actions. Its last branch, a TypeError, is for what is no action of a rule.
unfoldable pub sequence_actions : Action → List Action → List Action
unfolding modify_actions
sequence_actions Action.identity as2 = as2
sequence_actions (modify m) as2 = modify_actions m as2
sequence_actions controller as2 = controller ∷ []
sequence_actions (query b) as2 = query b ∷ []

module _ ⦃i : Ipaddr⦄ where
  open i use {value_eq_network}

  pub record Rule : Type 0 where
    pub mat : Pred
    pub actions : List Action

  abbrev pub Classifier : Type 0
  Classifier = List Rule

  -- The actions of the first rule that matches; `none` where the classifier is not total.
  unfoldable pub lookup : Classifier → Packet → Option (List Action)
  lookup [] pkt = none
  lookup (r ∷ c) pkt = if pred_eval r.mat pkt then some r.actions else lookup c pkt

  -- Rule.eval
  unfoldable pub rule_eval : Rule → Packet → Option (List Event)
  rule_eval r pkt = if pred_eval r.mat pkt then some (actions_eval r.actions pkt) else none

  -- Classifier.eval; `none` is the TypeError
  unfoldable pub eval : Classifier → Packet → Option (List Event)
  unfolding rule_eval
  eval [] pkt = none
  eval (r ∷ c) pkt = elim (rule_eval r pkt) [ none ↦ eval c pkt | some pkts ↦ some pkts ]

  -- remove_shadowed_cover_single
  unfoldable pub remove_shadowed : Classifier → Classifier → Classifier
  remove_shadowed opt [] = opt
  remove_shadowed opt (r ∷ c) =
      remove_shadowed (if any (λ s. covers s.mat r.mat) opt then opt else opt ++ r ∷ []) c

  unfoldable pub optimize : Classifier → Classifier
  unfolding remove_shadowed
  optimize c = remove_shadowed [] c

  -- remove_shadowed_exact_single
  unfoldable pub remove_equal : Classifier → Classifier → Classifier
  remove_equal opt [] = opt
  remove_equal opt (r ∷ c) =
      remove_equal (if any (λ s. pred_eq s.mat r.mat) opt then opt else opt ++ r ∷ []) c

  -- The new actions in __invert__; `none` is the TypeError.
  abbrev pub invert_actions : List Action → Option (List Action)
  invert_actions [] = some (Action.identity ∷ [])
  invert_actions (Action.identity ∷ []) = some []
  invert_actions _ = none

  abbrev cons_rule : Pred → Option (List Action) → Option Classifier → Option Classifier
  cons_rule p (some actions) (some c) = some (record { mat = p; actions = actions } ∷ c)
  cons_rule p _ _ = none

  -- __invert__
  unfoldable pub invert : Classifier → Option Classifier
  invert [] = some []
  invert (r ∷ c) = cons_rule r.mat (invert_actions r.actions) (invert c)

  -- _cross of __add__, as the list of the rules that it adds
  unfoldable pub cross : Rule → Rule → Classifier
  cross r1 r2 =
      let m = intersect r1.mat r2.mat in
      if pred_eq m drop then [] else record { mat = m; actions = union r1.actions r2.actions } ∷ []

  unfoldable pub cross_one : Rule → Classifier → Classifier
  unfolding cross
  cross_one r1 [] = []
  cross_one r1 (r2 ∷ c2) = cross r1 r2 ++ cross_one r1 c2

  unfoldable pub cross_all : Classifier → Classifier → Classifier
  unfolding cross_one
  cross_all [] c2 = []
  cross_all (r1 ∷ c1) c2 = cross_one r1 c2 ++ cross_all c1 c2

  abbrev drop_all_if_empty : Classifier → Classifier
  drop_all_if_empty [] = record { mat = identity; actions = [] } ∷ []
  drop_all_if_empty (r ∷ c) = optimize (r ∷ c)

  -- __add__
  unfoldable pub add : Classifier → Classifier → Classifier
  unfolding cross_all
  add c1 c2 = drop_all_if_empty (cross_all c1 c2)

  -- act.map[f] == v
  abbrev pub modify_eq_pattern : (f : Field) → Option Value → PatternOf f → Bool
  modify_eq_pattern (ip _) none n = false
  modify_eq_pattern (ip _) (some v) n = value_eq_network v n
  modify_eq_pattern (header _) v p = option_eq v p
  modify_eq_pattern (tag _) v p = option_eq v p

  -- Does the loop of _commute_test return `drop` at this field?
  abbrev pub commute_drops : (f : Field) → Option (Option Value) → Option (PatternOf f) → Bool
  commute_drops f (some v) (some p) = if modify_eq_pattern f v p then false else true
  commute_drops f _ _ = false

  -- new_match_dict
  abbrev pub commute_entry :
      (f : Field) → Option (Option Value) → Option (PatternOf f) → Option (PatternOf f)
  commute_entry f none p = p
  commute_entry f (some v) p = none

  unfoldable pub commute_match : ModifyMap → MatchMap → Pred
  commute_match a m =
      if any (λ f. commute_drops f (a f) (m f)) all_fields
      then drop
      else if all (λ f. is_none (commute_entry f (a f) (m f))) all_fields
      then identity
      else match (λ f. commute_entry f (a f) (m f))

  -- _commute_test. Its last branch, a TypeError, is for a FwdBucket or a composition, which are no
  -- actions of rules.
  unfoldable pub commute_test : Action → Pred → Pred
  unfolding commute_match
  commute_test Action.identity pkts = pkts
  commute_test (modify a) identity = identity
  commute_test (modify a) drop = drop
  commute_test (modify a) (match m) =
      if pred_eq (match m) identity then identity else commute_match a m
  commute_test controller pkts = identity
  commute_test (query b) pkts = identity

  -- _cross_act; `none` is None
  unfoldable pub cross_act : Rule → Action → Rule → Option Classifier
  unfolding commute_test
  cross_act r1 act r2 =
      let m = intersect r1.mat (commute_test act r2.mat) in
      if pred_eq m drop
      then none
      else some (record { mat = m; actions = sequence_actions act r2.actions } ∷ [])

  -- One round of the loop of _cross_rules.
  unfoldable pub cross_round : Option Classifier → Option Classifier → Option Classifier
  cross_round none next = next
  cross_round (some c) none = some c
  cross_round (some c) (some next) = some (optimize (add c next ++ (c ++ next)))

  unfoldable pub cross_actions : Option Classifier → Rule → List Action → Rule → Option Classifier
  unfolding cross_act cross_round
  cross_actions c r1 [] r2 = c
  cross_actions c r1 (act ∷ acts) r2 =
      cross_actions (cross_round c (cross_act r1 act r2)) r1 acts r2

  -- _cross_rules
  unfoldable pub cross_rules : Rule → Rule → Option Classifier
  unfolding cross_actions
  cross_rules r1 r2 = cross_actions none r1 r1.actions r2

  abbrev pub rules_of : Option Classifier → Classifier
  rules_of none = []
  rules_of (some c) = c

  -- The inner loop of __rshift__.
  unfoldable pub sequence_one : Rule → Classifier → Classifier
  unfolding cross_rules
  sequence_one r1 [] = []
  sequence_one r1 (r2 ∷ c2) = rules_of (cross_rules r1 r2) ++ sequence_one r1 c2

  abbrev pub sequence_rule : Rule → List Action → Classifier → Classifier
  sequence_rule r1 [] c2 = r1 ∷ []
  sequence_rule r1 (_ ∷ _) c2 = sequence_one r1 c2

  unfoldable pub sequence_all : Classifier → Classifier → Classifier
  unfolding sequence_one
  sequence_all [] c2 = []
  sequence_all (r1 ∷ c1) c2 = sequence_rule r1 r1.actions c2 ++ sequence_all c1 c2

  -- __rshift__
  unfoldable pub sequence : Classifier → Classifier → Classifier
  unfolding sequence_all optimize
  sequence c1 c2 = optimize (sequence_all c1 c2)
