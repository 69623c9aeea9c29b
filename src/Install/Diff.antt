-- ===== src/Install/Diff.antt =====
-- core/runtime.py, install_classifier: which rules to add, delete, modify and leave.
pub mod Refines
use pyretic.Base.{
  ltb, length, map, ℕ, Bool, true, false, ◌&&◌, not, Option, none, some, List, [], ◌∷◌, ◌++◌, ◌≡◌,
  ◌↔◌, refl, ◌∙◌, sym, ap, arith, inl, inr, all, Bool-cases, if◌then◌else◌, ℤ, int_eq, int_eq_iff,
  Same, find, remove_same, and-true, fun_ext, all_intro,
}
use pyretic.Packet.{all_fields}
use pyretic.Match.{is_none}
use pyretic.Action.{
  count_bucket, netflow_bucket, Action, modify_eq, modify_eq_sound, modify_eq_refl, action_eq,
}
use pyretic.Install.{filter}
use pyretic.Install.Concrete.{ConcreteAction, dict, object, is_aggregate}
use pyretic.Install.Rules.{ListedRule}

-- the test in find_same_rule
unfoldable pub same_rule : ListedRule → ListedRule → Bool
same_rule target r = modify_eq target.mat r.mat && int_eq target.priority r.priority

pub same_rule_iff :
    (r s : ListedRule) → (same_rule r s ≡ true) ↔ ((r.mat ≡ s.mat) × (r.priority ≡ s.priority))
unfolding same_rule
same_rule_iff r s = (
  λ h.
      let (m, p) = (and-true (modify_eq r.mat s.mat) (int_eq r.priority s.priority)).0 h in
      (modify_eq_sound r.mat s.mat m, (int_eq_iff r.priority s.priority).0 p),
  λ (m, p).
      (and-true (modify_eq r.mat s.mat) (int_eq r.priority s.priority)).1
        (rw m (modify_eq_refl s.mat), (int_eq_iff r.priority s.priority).1 p),
)

instance abbrev pub listed_same : Same ListedRule
listed_same = record {
  same = same_rule;
  same_refl = λ r. (same_rule_iff r r).1 (refl, refl);
  same_sym = λ r s h. let (m, p) = (same_rule_iff r s).0 h in (same_rule_iff s r).1 (sym m, sym p);
  same_trans = λ r s t h k.
      let (m, p) = (same_rule_iff r s).0 h in
      let (m', p') = (same_rule_iff s t).0 k in (same_rule_iff r t).1 (m ∙ m', p ∙ p');
}

-- find_same_rule
unfoldable pub find_same_rule : ListedRule → List ListedRule → Option ListedRule
unfolding find
find_same_rule target rules = find target rules

unfoldable pub buckets_removed : List ConcreteAction → List ConcreteAction
buckets_removed acts = filter (λ a. not (is_aggregate a)) acts

abbrev pub concrete_action_eq : ConcreteAction → ConcreteAction → Bool
concrete_action_eq (dict d) (dict e) = modify_eq d e
concrete_action_eq (object a) (object b) = action_eq a b
concrete_action_eq _ _ = false

unfoldable pub actions_eq : List ConcreteAction → List ConcreteAction → Bool
actions_eq [] [] = true
actions_eq (a ∷ acts) (b ∷ acts') = concrete_action_eq a b && actions_eq acts acts'
actions_eq _ _ = false

unfoldable pub different_actions : List ConcreteAction → List ConcreteAction → Bool
unfolding buckets_removed actions_eq
different_actions old_acts new_acts =
    not (actions_eq (buckets_removed old_acts) (buckets_removed new_acts))

pub record DiffLists : Type 0 where
  pub to_add : List ListedRule
  pub to_delete : List ListedRule
  pub to_modify : List ListedRule
  pub to_stay : List ListedRule

-- The rule with the new actions under the old version.
abbrev pub modified_rule : ListedRule → ListedRule → ListedRule
modified_rule old new = record {
  mat = new.mat;
  priority = new.priority;
  actions = new.actions;
  version = old.version;
  cookie = new.cookie;
  table_id = new.table_id;
  notify = false;
}

-- What the loop over the old rules has put into the lists: to_add and to_delete have the rules to
-- modify as well, and to_modify_old is the old counterparts.
pub record OldRules : Type 0 where
  pub to_add : List ListedRule
  pub to_delete : List ListedRule
  pub to_modify : List ListedRule
  pub to_modify_old : List ListedRule
  pub to_stay : List ListedRule

-- One round of that loop, before the rounds for the later rules.
unfoldable pub sort_old : ListedRule → Option ListedRule → OldRules → OldRules
unfolding different_actions
sort_old old none rest = record {
  to_add = rest.to_add;
  to_delete = old ∷ rest.to_delete;
  to_modify = rest.to_modify;
  to_modify_old = rest.to_modify_old;
  to_stay = rest.to_stay;
}
sort_old old (some new) rest =
    if different_actions old.actions new.actions
    then record {
      to_add = modified_rule old new ∷ rest.to_add;
      to_delete = old ∷ rest.to_delete;
      to_modify = modified_rule old new ∷ rest.to_modify;
      to_modify_old = old ∷ rest.to_modify_old;
      to_stay = rest.to_stay;
    }
    else record {
      to_add = rest.to_add;
      to_delete = rest.to_delete;
      to_modify = rest.to_modify;
      to_modify_old = rest.to_modify_old;
      to_stay = old ∷ rest.to_stay;
    }

unfoldable pub sort_olds : List ListedRule → List ListedRule → OldRules
unfolding sort_old find_same_rule
sort_olds [] new_rules = record {
  to_add = [];
  to_delete = [];
  to_modify = [];
  to_modify_old = [];
  to_stay = [];
}
sort_olds (old ∷ olds) new_rules =
    sort_old old (find_same_rule old new_rules) (sort_olds olds new_rules)

-- The loop over the new rules.
unfoldable pub new_only : List ListedRule → List ListedRule → List ListedRule
unfolding find_same_rule
new_only old_rules new_rules = filter (λ r. is_none (find_same_rule r old_rules)) new_rules

-- `for rule in rules: lst.remove(rule)`. The rules of a list are objects told apart by their match
-- and priority.
unfoldable pub remove_all : List ListedRule → List ListedRule → List ListedRule
unfolding remove_same
remove_all lst [] = lst
remove_all lst (r ∷ rules) = remove_all (remove_same r lst) rules

-- get_incremental_diff: the lists returned, and self.old_rules afterwards
unfoldable pub get_incremental_diff :
    List ListedRule → List ListedRule → DiffLists × List ListedRule
unfolding sort_olds new_only remove_all
get_incremental_diff old_rules new_rules =
    let sorted = sort_olds old_rules new_rules in
    let to_add = sorted.to_add ++ new_only old_rules new_rules in
    (
      record {
        to_add = remove_all to_add sorted.to_modify;
        to_delete = remove_all sorted.to_delete sorted.to_modify_old;
        to_modify = sorted.to_modify;
        to_stay = sorted.to_stay;
      },
      remove_all old_rules sorted.to_delete ++ to_add,
    )

-- get_nuclear_diff
unfoldable pub get_nuclear_diff : List ListedRule → List ListedRule → DiffLists × List ListedRule
get_nuclear_diff old_rules new_rules =
    (record { to_add = new_rules; to_delete = old_rules; to_modify = []; to_stay = [] }, new_rules)

abbrev is_count_bucket : ConcreteAction → Bool
is_count_bucket (object (Action.query (count_bucket n))) = true
is_count_bucket _ = false

abbrev pub is_netflow_bucket : ConcreteAction → Bool
is_netflow_bucket (object (Action.query (netflow_bucket n))) = true
is_netflow_bucket _ = false

-- A rule that lost a CountBucket is to notify when a switch removes it.
unfoldable pub without_buckets : ListedRule → ListedRule
without_buckets r =
    let new_acts = filter (λ a. not (is_count_bucket a)) r.actions in
    record r {
      actions = filter (λ a. not (is_netflow_bucket a)) new_acts;
      notify = ltb (length new_acts) (length r.actions);
    }

unfoldable pub remove_matching_aggregate_buckets : DiffLists → DiffLists
unfolding without_buckets
remove_matching_aggregate_buckets d = record {
  to_add = map without_buckets d.to_add;
  to_delete = map without_buckets d.to_delete;
  to_modify = map without_buckets d.to_modify;
  to_stay = map without_buckets d.to_stay;
}
