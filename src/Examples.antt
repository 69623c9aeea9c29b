-- ===== src/Examples.antt =====
-- The theorems on a concrete network.
mod Sample
mod Expressions
mod Fields
mod Diagrams
mod Characters
mod Learner
mod Automata
mod Buckets
mod Rules
mod Codes
use pyretic.Base.{
  ℕ, Bool, true, false, ◌&&◌, Option, none, some, List, [], ◌∷◌, ◌++◌, ◌≡◌, refl, All, ap, ◌∙◌,
  if◌then◌else◌, Bool-cases, inl, inr,
}
use pyretic.Packet.{
  Field, ip, header, tag, dstip, dstport, port, Value, num, Packet, ModifyMap, modifymany,
  header-modifymany, value_eq, all_fields,
}
use pyretic.Match.{
  MatchMap, Pred, match_eval, pred_eval, accepts, accepts_ip, intersect, covers, accepts_value,
}
use pyretic.Match.Meaning.{UntaggedPred, Untagged}
use pyretic.Match.Intersect.{intersect-eval}
use pyretic.Match.Cover.{covers_sound}
use pyretic.Action.{Action, Event, emit, count_bucket}
use pyretic.Action.Events.{SameViews, SameViews-refl, and_then}
use pyretic.Classifier
use pyretic.Classifier.{
  Rule, Classifier, add, sequence, optimize, remove_equal, commute_test, lookup, invert,
}
use pyretic.Classifier.Commute.{PlainModify, commute_test-eval}
use pyretic.Classifier.Lookup.{UntaggedRules}
use pyretic.Classifier.Optimize.{eval-optimize, eval-remove_equal}
use pyretic.Classifier.Sequence.{Plain}
use pyretic.Classifier.Outcome.{Total, outcome, outcome-add, outcome-sequence}
use pyretic.Policy
use pyretic.Policy.{
  Policy, match, modify, negate, query, derived, sequential, parallel, Policies, nil, cons, eval,
  eval_seq, compile, policy_rshift, policy_add, branches, difference, xfwd, has_packet, negate_eval,
  if_, port_map, identity, drop, port_match, if_policy, concat,
}
use pyretic.Policy.Eval.{chain, eval_seq-eq-chain, eval-policy_rshift, eval-policy_add}
use pyretic.Policy.Branches.{eval-if_}
use pyretic.Policy.Support.{Supported, PureFilter}
use pyretic.Policy.Good.{FilterRules, Good}
use pyretic.Policy.Negate.{Good-invert}
use pyretic.Policy.Compile.{compile_sound}
use pyretic.Policy.Algebra.{negate-complement, eval-difference, eval-xfwd}
use pyretic.Examples.Sample.{
  prefixes, private_network, site_network, to_private, to_site_web, web_packet, routing,
}

to_private-Untagged : Untagged to_private
to_private-Untagged t = refl

to_site_web-Untagged : Untagged to_site_web
to_site_web-Untagged t = refl

port_map-PlainModify : (n : ℕ) → PlainModify (port_map n)
port_map-PlainModify n = record { no_tag = λ t. refl; no_ip = λ f. refl }

routing-Supported : Supported routing
unfolding if_policy branches policy_add policy_rshift concat
routing-Supported = (
  (
    (
      (to_site_web-Untagged, (tt, port_map-PlainModify 2, tt)),
      (
        (
          (to_site_web-Untagged, tt),
          (tt, (to_private-Untagged, tt), (tt, port_map-PlainModify 3, tt)),
        ),
        tt,
      ),
    ),
    tt,
    refl,
  ),
  (tt, tt),
)

-- match(dstip=10.1.0.0/16, dstport=80) to port 2, the rest dropped
abbrev web_rules : Classifier
web_rules =
    record { mat = Pred.match to_site_web; actions = Action.modify (port_map 2) ∷ [] }
    ∷ record { mat = Pred.identity; actions = [] }
    ∷ []

-- match(dstip=10.0.0.0/8)
abbrev private_rules : Classifier
private_rules =
    record { mat = Pred.match to_private; actions = Action.identity ∷ [] }
    ∷ record { mat = Pred.identity; actions = [] }
    ∷ []

web_rules-Plain : All Plain web_rules
web_rules-Plain = (
  record { untagged = to_site_web-Untagged; plain = (port_map-PlainModify 2, tt) },
  (record { untagged = tt; plain = tt }, tt),
)

private_rules-Plain : All Plain private_rules
private_rules-Plain = (
  record { untagged = to_private-Untagged; plain = (tt, tt) },
  (record { untagged = tt; plain = tt }, tt),
)

web_rules-Total : Total web_rules
unfolding lookup pred_eval
web_rules-Total pkt = elim (Bool-cases (match_eval to_site_web pkt)) [
  | inl e ↦ (Action.modify (port_map 2) ∷ [], rw e)
  | inr e ↦ ([], rw e)
]

private_rules-Total : Total private_rules
unfolding lookup pred_eval
private_rules-Total pkt = elim (Bool-cases (match_eval to_private pkt)) [
  | inl e ↦ (Action.identity ∷ [], rw e)
  | inr e ↦ ([], rw e)
]

compile_sound_example :
    (c : Classifier) × (compile routing ≡ some c)
    × ((pkt : Packet)
        → (es : List Event) × (Classifier.eval c pkt ≡ some es) × SameViews es (eval routing pkt))
compile_sound_example = compile_sound routing routing-Supported

outcome-sequence_example :
    SameViews
      (outcome (sequence private_rules web_rules) web_packet)
      (and_then (outcome private_rules web_packet) (outcome web_rules))
outcome-sequence_example =
    outcome-sequence private_rules web_rules web_packet private_rules-Plain web_rules-Plain
      (tt, (tt, tt)) private_rules-Total web_rules-Total

outcome-add_example :
    SameViews
      (outcome (add private_rules web_rules) web_packet)
      (outcome private_rules web_packet ++ outcome web_rules web_packet)
outcome-add_example =
    outcome-add private_rules web_rules web_packet (to_private-Untagged, (tt, tt))
      (to_site_web-Untagged, (tt, tt)) private_rules-Total web_rules-Total

private_rules-Good : Good private_rules (outcome private_rules)
private_rules-Good = record {
  total = private_rules-Total;
  plain = private_rules-Plain;
  same = λ pkt. SameViews-refl (outcome private_rules pkt);
}

Good-invert_example :
    (d : Classifier) × (invert private_rules ≡ some d)
    × Good d (λ pkt. negate_eval (outcome private_rules pkt) pkt)
    × FilterRules d
Good-invert_example =
    Good-invert private_rules (outcome private_rules) (tt, (tt, tt)) private_rules-Good

eval-optimize_example :
    Classifier.eval (optimize (private_rules ++ web_rules)) web_packet
    ≡ Classifier.eval (private_rules ++ web_rules) web_packet
eval-optimize_example =
    eval-optimize (private_rules ++ web_rules) web_packet
      (to_private-Untagged, (tt, (to_site_web-Untagged, (tt, tt))))

eval-remove_equal_example :
    Classifier.eval (remove_equal [] (private_rules ++ private_rules)) web_packet
    ≡ Classifier.eval (private_rules ++ private_rules) web_packet
eval-remove_equal_example =
    eval-remove_equal (private_rules ++ private_rules) web_packet
      (to_private-Untagged, (tt, (to_private-Untagged, (tt, tt))))

commute_test-eval_example :
    pred_eval (commute_test (Action.modify (port_map 2)) (Pred.match (port_match 2))) web_packet
    ≡ pred_eval (Pred.match (port_match 2)) (modifymany web_packet (port_map 2))
commute_test-eval_example =
    commute_test-eval (port_map 2) (Pred.match (port_match 2)) web_packet (port_map-PlainModify 2)
      (λ t. refl)

intersect-eval_example :
    pred_eval (intersect (Pred.match to_private) (Pred.match to_site_web)) web_packet ≡ (
      pred_eval (Pred.match to_private) web_packet && pred_eval (Pred.match to_site_web) web_packet)
intersect-eval_example =
    intersect-eval (Pred.match to_private) (Pred.match to_site_web) web_packet to_private-Untagged
      to_site_web-Untagged

covers_sound_example : pred_eval (Pred.match to_private) web_packet ≡ true
unfolding covers pred_eval match_eval accepts accepts_ip accepts_value value_eq all_fields
covers_sound_example =
    covers_sound (Pred.match to_private) (Pred.match to_site_web) web_packet to_private-Untagged
      refl refl

abbrev move : Policies
move = cons (match to_private) (cons identity (cons (modify (port_map 2)) nil))

eval_seq-eq-chain_example : eval_seq move (emit web_packet ∷ []) ≡ chain move (emit web_packet ∷ [])
eval_seq-eq-chain_example = eval_seq-eq-chain move (emit web_packet ∷ [])

eval-policy_rshift_example :
    eval (policy_rshift (match to_private) routing) web_packet
    ≡ and_then (eval (match to_private) web_packet) (eval routing)
eval-policy_rshift_example = eval-policy_rshift (match to_private) routing web_packet

abbrev filter_branches : Policy
filter_branches = branches (match to_private) (modify (port_map 2)) identity

eval-if__example :
    SameViews
      (eval filter_branches web_packet)
      (eval (if_ (match to_private) (modify (port_map 2)) identity filter_branches) web_packet)
eval-if__example =
    eval-if_ (match to_private) (modify (port_map 2)) identity filter_branches web_packet tt refl

negate-complement_example :
    SameViews
      (eval (policy_add (match to_private) (negate (match to_private))) web_packet)
      (eval identity web_packet)
    × (eval (policy_rshift (match to_private) (negate (match to_private))) web_packet
        ≡ eval drop web_packet)
negate-complement_example = negate-complement (match to_private) web_packet tt
