-- ===== src/Install/Bookkeeping.antt =====
-- core/runtime.py, bookkeep_count_buckets: the buckets learn the rules that an installation adds,
-- deletes, leaves and modifies. The bucket that an action names by its number is the object there.
pub mod Steps
pub mod Failure
use pyretic.Base.{
  ℕ, ◌==◌, Bool, true, false, ◌&&◌, ◌||◌, not, Option, none, some, List, [], ◌∷◌, ◌++◌, all, has,
  bind, if◌then◌else◌, ℤ, int_eq,
}
use pyretic.Packet.{header, port}
use pyretic.Action.{Action, count_bucket, modify_eq}
use pyretic.Install.Concrete.{Dict, ConcreteAction, dict, object}
use pyretic.Install.Rules.{ListedRule}
use pyretic.Install.Diff.{DiffLists}
use pyretic.Counting.{CountBucket}
use pyretic.Counting.Operations.{
  add_match, delete_match, start_update, add_pull_stats, add_pull_existing_stats, finish_update,
}

-- rule_key
pub record RuleKey : Type 0 where
  pub mat : Dict
  pub priority : ℤ
  pub version : ℕ

unfoldable pub rule_key_eq : RuleKey → RuleKey → Bool
rule_key_eq a b = modify_eq a.mat b.mat && (int_eq a.priority b.priority && a.version == b.version)

abbrev pub Buckets : Type 0
Buckets = ℕ → CountBucket

-- The buckets, and global_outstanding_deletes.
pub record Books : Type 0 where
  pub buckets : Buckets
  pub outstanding_deletes : List (RuleKey × List ℕ)

unfoldable pub update_bucket : ℕ → (CountBucket → CountBucket) → Buckets → Buckets
update_bucket n f bs k = if n == k then f (bs k) else bs k

-- map(lambda x: ..., bucket_list.values())
unfoldable pub on_buckets : (CountBucket → CountBucket) → List ℕ → Buckets → Buckets
unfolding update_bucket
on_buckets f [] bs = bs
on_buckets f (n ∷ ns) bs = on_buckets f ns (update_bucket n f bs)

-- _collect_buckets, for the actions of a rule and for the rules
unfoldable pub collect_actions : List ConcreteAction → List ℕ → List ℕ
collect_actions [] ns = ns
collect_actions (object (Action.query (count_bucket n)) ∷ acts) ns =
    collect_actions acts (if has n ns then ns else ns ++ n ∷ [])
collect_actions (_ ∷ acts) ns = collect_actions acts ns

unfoldable pub collect_buckets : List ListedRule → List ℕ → List ℕ
unfolding collect_actions
collect_buckets [] ns = ns
collect_buckets (r ∷ rs) ns = collect_buckets rs (collect_actions r.actions ns)

-- add_global_outstanding_delete
unfoldable pub add_outstanding : RuleKey → ℕ → List (RuleKey × List ℕ) → List (RuleKey × List ℕ)
unfolding rule_key_eq
add_outstanding key n [] = (key, n ∷ []) ∷ []
add_outstanding key n (e ∷ es) =
    let rest = add_outstanding key n es in
    if rule_key_eq key e.0 then (e.0, if has n e.1 then e.1 else n ∷ e.1) ∷ es else e ∷ rest

-- key in global_outstanding_deletes, and act in its entry
unfoldable pub is_outstanding : RuleKey → ℕ → List (RuleKey × List ℕ) → Bool
unfolding rule_key_eq
is_outstanding key n [] = false
is_outstanding key n (e ∷ es) =
    let rest = is_outstanding key n es in if rule_key_eq key e.0 then has n e.1 else rest

pub data Op : Type 0 where
  add delete stay modify : Op

-- The branches for a CountBucket. `none` is the TypeError of add_match, which has no parameter
-- existing_rule.
unfoldable pub update_count_bucket : Op → RuleKey → ℕ → Books → Option Books
unfolding update_bucket add_match delete_match add_outstanding
update_count_bucket add key n b =
    some (record b {
      buckets = update_bucket n (add_match key.mat key.priority key.version) b.buckets;
    })
update_count_bucket delete key n b = some (record b {
  buckets = update_bucket n (delete_match key.mat key.priority key.version false) b.buckets;
  outstanding_deletes = add_outstanding key n b.outstanding_deletes;
})
update_count_bucket stay key n b = if (b.buckets n).new_bucket then none else some b
update_count_bucket modify key n b = if (b.buckets n).new_bucket then none else some b

-- The loop over the actions.
unfoldable pub update_actions : Op → RuleKey → List ConcreteAction → Books → Option Books
unfolding update_count_bucket
update_actions op key [] b = some b
update_actions op key (object (Action.query (count_bucket n)) ∷ acts) b =
    bind (update_count_bucket op key n b) (update_actions op key acts)
update_actions op key (_ ∷ acts) b = update_actions op key acts b

abbrev pub is_outstanding_for : RuleKey → List (RuleKey × List ℕ) → ConcreteAction → Bool
is_outstanding_for key deletes (object (Action.query (count_bucket n))) =
    is_outstanding key n deletes
is_outstanding_for key deletes _ = true

-- The assertions after a deletion.
unfoldable pub check_deletes : Op → RuleKey → List ConcreteAction → Books → Option Books
unfolding is_outstanding
check_deletes delete key acts b =
    if all (is_outstanding_for key b.outstanding_deletes) acts then some b else none
check_deletes _ key acts b = some b

-- match.pop('port', None)
abbrev pub pop_port : Dict → Dict
pop_port d (header port) = none
pop_port d f = d f

abbrev pub key_of : Bool → ℕ → ListedRule → RuleKey
key_of use_nx table_id r = record {
  mat = if use_nx && not (table_id == 0) then pop_port r.mat else r.mat;
  priority = r.priority;
  version = r.version;
}

-- update_rules_for_buckets, for the rules of a list
unfoldable pub update_rules : Op → Bool → ℕ → List ListedRule → Books → Option Books
unfolding update_actions check_deletes
update_rules op use_nx table_id [] b = some b
update_rules op use_nx table_id (r ∷ rs) b =
    let key = key_of use_nx table_id r in
    bind (update_actions op key r.actions b)
      (λ b1. bind (check_deletes op key r.actions b1) (update_rules op use_nx table_id rs))

-- bookkeep_count_buckets, where these switches are up
unfoldable pub bookkeep_count_buckets : Bool → ℕ → List ℕ → DiffLists → Books → Option Books
unfolding collect_buckets on_buckets start_update update_rules add_pull_stats
    add_pull_existing_stats finish_update
bookkeep_count_buckets use_nx table_id up d b =
    let ids = collect_buckets (d.to_add ++ (d.to_delete ++ (d.to_modify ++ d.to_stay))) [] in
    let started = record b { buckets = on_buckets start_update ids b.buckets } in
    bind (update_rules add use_nx table_id d.to_add started) (λ b1.
      bind (update_rules delete use_nx table_id d.to_delete b1) (λ b2.
        bind (update_rules stay use_nx table_id d.to_stay b2) (λ b3.
          bind (update_rules modify use_nx table_id d.to_modify b3) (λ b4.
            let pulling =
              on_buckets add_pull_existing_stats ids (on_buckets add_pull_stats ids b4.buckets) in
            some (record b4 { buckets = on_buckets (finish_update up) ids pulling })))))
