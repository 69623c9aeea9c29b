-- ===== src/Overlap.antt =====
-- lib/path.py, class classifier_utils: how two filters overlap, read off their classifiers.
pub mod Both
pub mod Sound
use pyretic.Base.{
  Bool, true, false, ◌&&◌, not, Option, none, some, List, [], ◌∷◌, any, map_option, bind,
  if◌then◌else◌,
}
use pyretic.Ipaddr.{Ipaddr}
use pyretic.Match.{Pred, intersect}
use pyretic.Action.{Action}
use pyretic.Classifier.{Rule, Classifier}
use pyretic.Policy.{
  Policy, identity, drop, match, controller, modify, query, negate, parallel, union, sequential,
  derived, if_, intersection, Policies, nil, cons, concat, compile,
}

-- is_equal, is_superset, is_subset, intersects, new_and_not_pred, not_new_and_pred
pub record Overlap : Type 0 where
  pub is_equal : Bool
  pub is_superset : Bool
  pub is_subset : Bool
  pub intersects : Bool
  pub new_and_not_pred : Bool
  pub not_new_and_pred : Bool

abbrev pub has_action : List Action → Bool
has_action [] = false
has_action (a ∷ acts) = true

-- The flags, from the answers to the three questions.
abbrev pub overlap : Bool → Bool → Bool → Overlap
overlap not_new_and_pred new_and_not_pred inters =
    let is_equal = not not_new_and_pred && not new_and_not_pred in
    let is_superset = not is_equal && not new_and_not_pred in
    let is_subset = not is_equal && (not is_superset && not not_new_and_pred) in
    record {
      is_equal = is_equal;
      is_superset = is_superset;
      is_subset = is_subset;
      intersects = not is_equal && (not is_superset && (not is_subset && inters));
      new_and_not_pred = new_and_not_pred;
      not_new_and_pred = not_new_and_pred;
    }

module _ ⦃i : Ipaddr⦄ where
  abbrev pub policy_of : Pred → Policy
  policy_of Pred.identity = identity
  policy_of Pred.drop = drop
  policy_of (Pred.match m) = match m

  -- p & q, of two filters
  unfoldable pub filter_and : Policy → Policy → Policy
  unfolding intersect concat
  filter_and (match m) (match n) = policy_of (intersect (Pred.match m) (Pred.match n))
  filter_and (intersection ps) (intersection qs) = intersection (concat ps qs)
  filter_and (intersection ps) q = intersection (concat ps (cons q nil))
  filter_and p q = intersection (cons p (cons q nil))

  unfoldable pub is_not_drop_classifier : Classifier → Bool
  is_not_drop_classifier c = any (λ r. has_action r.actions) c

  -- The classifier of a policy is compiled once and kept. `none` is an exception.
  unfoldable pub is_not_drop : Policy → Option Bool
  unfolding compile is_not_drop_classifier
  is_not_drop p = map_option is_not_drop_classifier (compile p)

  unfoldable pub has_nonempty_intersection : Policy → Policy → Option Bool
  unfolding is_not_drop filter_and
  has_nonempty_intersection p1 p2 = is_not_drop (filter_and p1 p2)

  -- isinstance(p, Filter). Of the derived policies, difference and DynamicFilter are filters, and
  -- fwd, xfwd and DynamicPolicy are not: the test on the policy inside tells which it is.
  unfoldable pub is_filter : (Policy → Bool) → Policy → Bool
  is_filter derived_filter identity = true
  is_filter derived_filter drop = true
  is_filter derived_filter controller = true
  is_filter derived_filter (match m) = true
  is_filter derived_filter (query q) = true
  is_filter derived_filter (negate p) = true
  is_filter derived_filter (union ps) = true
  is_filter derived_filter (intersection ps) = true
  is_filter derived_filter (derived p) = derived_filter p
  is_filter derived_filter (modify m) = false
  is_filter derived_filter (parallel ps) = false
  is_filter derived_filter (sequential ps) = false
  is_filter derived_filter (if_ pred t_branch f_branch policy) = false

  -- The intersection of the two predicates is asked for only if neither contains the other.
  unfoldable pub overlap_flags : Policy → Policy → Policy → Policy → Option Overlap
  unfolding has_nonempty_intersection
  overlap_flags pred pred_neg new_pred new_pred_neg =
      bind (has_nonempty_intersection pred new_pred_neg) (λ not_new_and_pred.
        bind (has_nonempty_intersection pred_neg new_pred) (λ new_and_not_pred.
          let inters = has_nonempty_intersection pred new_pred in
          if not_new_and_pred && new_and_not_pred
          then map_option (overlap not_new_and_pred new_and_not_pred) inters
          else some (overlap not_new_and_pred new_and_not_pred false)))

  -- `none` is an exception, which may be the failed assertion.
  unfoldable pub get_overlap_mode :
      (Policy → Bool) → Policy → Policy → Policy → Policy → Option Overlap
  unfolding is_filter overlap_flags
  get_overlap_mode derived_filter pred pred_neg new_pred new_pred_neg =
      let flags = overlap_flags pred pred_neg new_pred new_pred_neg in
      if is_filter derived_filter new_pred
        && (is_filter derived_filter pred
            && (is_filter derived_filter pred_neg && is_filter derived_filter new_pred_neg))
      then flags
      else none
