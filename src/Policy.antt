-- ===== src/Policy.antt =====
-- core/language.py: the policy classes, their evaluation on a packet and their compilation.
pub mod Eval
pub mod Support
pub mod Good
pub mod Negate
pub mod Compiled
pub mod Pure
pub mod Passes
pub mod Branches
pub mod Compile
pub mod Algebra
use pyretic.Base.{ℕ, Bool, true, false, Option, none, some, List, [], ◌∷◌, ◌++◌, if◌then◌else◌}
use pyretic.Packet.{Header, port, Field, header, Value, num, Packet, ModifyMap}
use pyretic.Ipaddr.{Ipaddr}
use pyretic.Match.{MatchMap, PatternOf, Pred, match_eval, is_empty}
use pyretic.Action.{
  Action, Query, rule_bucket, fwd_bucket, Event, emit, collect, raised, modify_eval,
}
use pyretic.Action.Events.{and_then}
use pyretic.Classifier.{Rule, Classifier, add, sequence, invert}

-- Is the set of packets returned not empty?
unfoldable pub has_packet : List Event → Bool
has_packet [] = false
has_packet (emit p ∷ es) = true
has_packet (_ ∷ es) = has_packet es

-- What happened besides the packets returned.
unfoldable pub others : List Event → List Event
others [] = []
others (emit p ∷ es) = others es
others (collect b p ∷ es) = collect b p ∷ others es
others (raised ∷ es) = raised ∷ others es

-- negate.eval, after the evaluation of the negated policy
unfoldable pub negate_eval : List Event → Packet → List Event
unfolding has_packet others
negate_eval es pkt = others es ++ (if has_packet es then [] else emit pkt ∷ [])

abbrev pub port_map : ℕ → ModifyMap
port_map outport (header port) = some (some (num outport))
port_map outport _ = none

module _ ⦃i : Ipaddr⦄ where
  -- A derived policy carries the policy that its constructor built. DynamicPolicy and DynamicFilter
  -- are derived policies whose policy is the one that was set last.
  mutual
    pub data Policy : Type 0 where
      identity drop controller : Policy
      match : MatchMap → Policy
      modify : ModifyMap → Policy
      query : Query → Policy
      negate : Policy → Policy
      parallel union sequential intersection : Policies → Policy
      derived : Policy → Policy
      if_ : (pred t_branch f_branch policy : Policy) → Policy

    pub data Policies : Type 0 where
      nil : Policies
      cons : Policy → Policies → Policies

  unfoldable pub concat : Policies → Policies → Policies
  concat nil qs = qs
  concat (cons p ps) qs = cons p (concat ps qs)

  -- self.policies + pol.policies, or self.policies + [pol], for `>>`
  abbrev sequence_items : Policy → Policies
  sequence_items (sequential ps) = ps
  sequence_items (intersection ps) = ps
  sequence_items p = cons p nil

  -- __rshift__ of Policy and of sequential
  unfoldable pub policy_rshift : Policy → Policy → Policy
  unfolding concat
  policy_rshift p q = sequential (concat (sequence_items p) (sequence_items q))

  abbrev parallel_items : Policy → Policies
  parallel_items (parallel ps) = ps
  parallel_items (union ps) = ps
  parallel_items p = cons p nil

  -- __add__ of Policy and of parallel
  unfoldable pub policy_add : Policy → Policy → Policy
  unfolding concat
  policy_add p q = parallel (concat (parallel_items p) (parallel_items q))

  -- difference(f1, f2): the policy ~f2 & f1
  unfoldable pub difference : Policy → Policy → Policy
  difference f1 f2 = derived (intersection (cons (negate f2) (cons f1 nil)))

  -- (pred >> t_branch) + ((~pred) >> f_branch)
  unfoldable pub branches : Policy → Policy → Policy → Policy
  unfolding policy_add policy_rshift
  branches pred t_branch f_branch =
      policy_add (policy_rshift pred t_branch) (policy_rshift (negate pred) f_branch)

  unfoldable pub if_policy : Policy → Policy → Policy → Policy
  unfolding branches
  if_policy pred t_branch f_branch = if_ pred t_branch f_branch (branches pred t_branch f_branch)

  unfoldable pub fwd : ℕ → Policy
  fwd outport = derived (modify (port_map outport))

  abbrev pub port_match : ℕ → MatchMap
  port_match outport (header port) = some (some (num outport))
  port_match outport _ = none

  -- (~match(port=outport)) >> fwd(outport)
  unfoldable pub xfwd : ℕ → Policy
  unfolding fwd policy_rshift
  xfwd outport = derived (policy_rshift (negate (match (port_match outport))) (fwd outport))

  -- policy == identity and policy == drop, in sequential.eval
  abbrev is_identity : Policy → Bool
  is_identity identity = true
  is_identity (match m) = is_empty m
  is_identity _ = false

  abbrev is_drop : Policy → Bool
  is_drop drop = true
  is_drop _ = false

  unfoldable mutual
    pub eval : Policy → Packet → List Event
    eval identity pkt = emit pkt ∷ []
    eval drop pkt = []
    eval controller pkt = []
    eval (match m) pkt = if match_eval m pkt then emit pkt ∷ [] else []
    eval (modify m) pkt = modify_eval m pkt ∷ []
    eval (query b) pkt = collect b pkt ∷ []
    eval (negate p) pkt = negate_eval (eval p pkt) pkt
    eval (parallel ps) pkt = eval_all ps pkt
    eval (union ps) pkt = eval_all ps pkt
    eval (sequential ps) pkt = eval_seq ps (emit pkt ∷ [])
    eval (intersection ps) pkt = eval_seq ps (emit pkt ∷ [])
    eval (derived p) pkt = eval p pkt
    eval (if_ pred t_branch f_branch policy) pkt =
        let test = eval pred pkt in
        others test ++ (if has_packet test then eval t_branch pkt else eval f_branch pkt)

    -- the loop of parallel.eval
    pub eval_all : Policies → Packet → List Event
    eval_all nil pkt = []
    eval_all (cons p ps) pkt = eval p pkt ++ eval_all ps pkt

    -- the loop of sequential.eval, from what the policies so far have done
    pub eval_seq : Policies → List Event → List Event
    eval_seq nil prev = prev
    eval_seq (cons p ps) prev =
        let skip = eval_seq ps prev in
        let next = eval_seq ps (and_then prev (eval p)) in
        if has_packet prev
        then (if is_identity p then skip else if is_drop p then others prev else next)
        else prev

  abbrev rule : Pred → List Action → Rule
  rule p actions = record { mat = p; actions = actions }

  -- Query.generate_classifier: a FwdBucket sends to the controller.
  abbrev query_action : Query → Action
  query_action (fwd_bucket n) = Action.controller
  query_action (rule_bucket b) = Action.query b

  infixl 5 ◌>>=◌
  abbrev pub ◌>>=◌ : Option Classifier → (Classifier → Option Classifier) → Option Classifier
  none >>= f = none
  some c >>= f = f c

  -- `compile`; `none` is a TypeError or an AssertionError.
  unfoldable mutual
    pub compile : Policy → Option Classifier
    compile identity = some (rule Pred.identity (Action.identity ∷ []) ∷ [])
    compile drop = some (rule Pred.identity [] ∷ [])
    compile controller = some (rule Pred.identity (Action.controller ∷ []) ∷ [])
    compile (match m) =
        some (rule (Pred.match m) (Action.identity ∷ []) ∷ rule Pred.identity [] ∷ [])
    compile (modify m) = some (rule Pred.identity (Action.modify m ∷ []) ∷ [])
    compile (query b) = some (rule Pred.identity (query_action b ∷ []) ∷ [])
    compile (negate p) = compile p >>= invert
    compile (parallel ps) = compile_parallel ps
    compile (union ps) = compile_parallel ps
    compile (sequential ps) = compile_sequential ps
    compile (intersection ps) = compile_sequential ps
    compile (derived p) = compile p
    compile (if_ pred t_branch f_branch policy) = compile policy

    -- drop.compile() for no policies, else the reduction of their classifiers by +
    pub compile_parallel : Policies → Option Classifier
    compile_parallel nil = some (rule Pred.identity [] ∷ [])
    compile_parallel (cons p ps) = compile p >>= λ c. add_all c ps

    pub add_all : Classifier → Policies → Option Classifier
    add_all acc nil = some acc
    add_all acc (cons p ps) = compile p >>= λ c. add_all (add acc c) ps

    -- the assertion, and the reduction by >>
    pub compile_sequential : Policies → Option Classifier
    compile_sequential nil = none
    compile_sequential (cons p ps) = compile p >>= λ c. sequence_from c ps

    pub sequence_from : Classifier → Policies → Option Classifier
    sequence_from acc nil = some acc
    sequence_from acc (cons p ps) = compile p >>= λ c. sequence_from (sequence acc c) ps
