-- ===== src/Install/Bookkeeping/Failure.antt =====
-- bookkeep_count_buckets: when it raises.
use pyretic.Base.{
  ℕ, Bool, ◌||◌, none, some, List, [], ◌∷◌, ◌++◌, ◌≡◌, refl, ◌∙◌, ap, inl, inr, any, bind,
  Bool-cases, if◌then◌else◌,
}
use pyretic.Match.{is_none}
use pyretic.Action.{Action, count_bucket}
use pyretic.Install.Concrete.{ConcreteAction, dict, object}
use pyretic.Install.Rules.{ListedRule}
use pyretic.Install.Diff.{DiffLists}
use pyretic.Counting.{CountBucket}
use pyretic.Counting.Operations.{start_update, clear_transient_counters}
use pyretic.Install.Bookkeeping.{
  RuleKey, Books, on_buckets, Op, update_count_bucket, update_actions, check_deletes, key_of,
  update_rules, bookkeep_count_buckets, collect_buckets,
}
use pyretic.Install.Bookkeeping.Steps.{
  flags, is_new, has_new_bucket, Keeps, on_buckets-flags, add-Keeps, delete-Deletes,
}

add_rules-Keeps :
    (use_nx : Bool) (table_id : ℕ) (rs : List ListedRule) (b : Books)
    → Keeps b (update_rules Op.add use_nx table_id rs b)
unfolding update_rules check_deletes
add_rules-Keeps use_nx table_id [] b = (b, refl, refl)
add_rules-Keeps use_nx table_id (r ∷ rs) b =
    let (b1, e, same) = add-Keeps (key_of use_nx table_id r) r.actions b in
    let (b2, e', same') = add_rules-Keeps use_nx table_id rs b1 in (b2, rw e e', same' ∙ same)

delete_rules-Keeps :
    (use_nx : Bool) (table_id : ℕ) (rs : List ListedRule) (b : Books)
    → Keeps b (update_rules Op.delete use_nx table_id rs b)
unfolding update_rules check_deletes
delete_rules-Keeps use_nx table_id [] b = (b, refl, refl)
delete_rules-Keeps use_nx table_id (r ∷ rs) b =
    let d = delete-Deletes (key_of use_nx table_id r) r.actions b in
    let (b2, e', same') = delete_rules-Keeps use_nx table_id rs d.after in
    (b2, rw (d.is_result, d.recorded) e', same' ∙ d.same)

-- The two operations that raise for a new bucket, and change nothing otherwise.
data Leaves : Op → Type 0 where
  leaves_stay : Leaves Op.stay
  leaves_modify : Leaves Op.modify

leave-count_bucket :
    (op : Op) (key : RuleKey) (n : ℕ) (b : Books)
    → Leaves op
    → update_count_bucket op key n b ≡ (if flags b.buckets n then none else some b)
unfolding update_count_bucket
leave-count_bucket op key n b leaves_stay = refl
leave-count_bucket op key n b leaves_modify = refl

leave-actions :
    (op : Op) (key : RuleKey) (acts : List ConcreteAction) (b : Books)
    → Leaves op
    → update_actions op key acts b ≡ (if any (is_new (flags b.buckets)) acts then none else some b)
unfolding update_actions
leave-actions op key [] b l = refl
leave-actions op key (object (Action.query (count_bucket n)) ∷ acts) b l =
    elim (Bool-cases (flags b.buckets n)) [
      | inl e ↦ rw (leave-count_bucket op key n b l, e) refl
      | inr e ↦ rw (leave-count_bucket op key n b l, e) (leave-actions op key acts b l)
    ]
leave-actions op key (dict d ∷ acts) b l = leave-actions op key acts b l
leave-actions op key (object _ ∷ acts) b l = leave-actions op key acts b l

leave-check_deletes :
    (op : Op) (key : RuleKey) (acts : List ConcreteAction) (b : Books)
    → Leaves op
    → check_deletes op key acts b ≡ some b
unfolding check_deletes
leave-check_deletes op key acts b leaves_stay = refl
leave-check_deletes op key acts b leaves_modify = refl

leave-rules :
    (op : Op) (use_nx : Bool) (table_id : ℕ) (rs : List ListedRule) (b : Books)
    → Leaves op
    → update_rules op use_nx table_id rs b
      ≡ (if any (has_new_bucket (flags b.buckets)) rs then none else some b)
unfolding update_rules
leave-rules op use_nx table_id [] b l = refl
leave-rules op use_nx table_id (r ∷ rs) b l =
    let key = key_of use_nx table_id r in
    elim (Bool-cases (has_new_bucket (flags b.buckets) r)) [
      | inl e ↦ rw (leave-actions op key r.actions b l, e) refl
      | inr e ↦
          rw (leave-actions op key r.actions b l, e, leave-check_deletes op key r.actions b l)
            (leave-rules op use_nx table_id rs b l)
    ]

start_update-new : (b : CountBucket) → (start_update b).new_bucket ≡ b.new_bucket
unfolding start_update clear_transient_counters
start_update-new b = refl

-- The loops over the rules that stay and that are modified, from books b2.
left_rules :
    (stays mods : List ListedRule) (use_nx : Bool) (table_id : ℕ) (b2 : Books) (f : Books → Books)
    → is_none (
        bind
          (update_rules Op.stay use_nx table_id stays b2)
          (λ b3. bind (update_rules Op.modify use_nx table_id mods b3) (λ b4. some (f b4))))
      ≡ (any (has_new_bucket (flags b2.buckets)) stays
          || any (has_new_bucket (flags b2.buckets)) mods)
left_rules stays mods use_nx table_id b2 f =
    elim (Bool-cases (any (has_new_bucket (flags b2.buckets)) stays)) [
      | inl e ↦ rw (leave-rules Op.stay use_nx table_id stays b2 leaves_stay, e) refl
      | inr e ↦
          rw (leave-rules Op.stay use_nx table_id stays b2 leaves_stay, e)
            (rw (leave-rules Op.modify use_nx table_id mods b2 leaves_modify)
              (elim (Bool-cases (any (has_new_bucket (flags b2.buckets)) mods)) [
                | inl k ↦ rw k refl
                | inr k ↦ rw k refl
              ]))
    ]

-- It raises just when a rule that stays or is modified has a new CountBucket.
pub bookkeep_count_buckets-error :
    (use_nx : Bool) (table_id : ℕ) (up : List ℕ) (d : DiffLists) (b : Books)
    → is_none (bookkeep_count_buckets use_nx table_id up d b) ≡ (
        any (has_new_bucket (flags b.buckets)) d.to_stay
        || any (has_new_bucket (flags b.buckets)) d.to_modify)
unfolding bookkeep_count_buckets
bookkeep_count_buckets-error use_nx table_id up d b =
    let ids = collect_buckets (d.to_add ++ (d.to_delete ++ (d.to_modify ++ d.to_stay))) [] in
    let started = record b { buckets = on_buckets start_update ids b.buckets } in
    let same0 = on_buckets-flags start_update ids b.buckets start_update-new in
    let (b1, e1, same1) = add_rules-Keeps use_nx table_id d.to_add started in
    let (b2, e2, same2) = delete_rules-Keeps use_nx table_id d.to_delete b1 in
    rw (e1, e2)
      (left_rules d.to_stay d.to_modify use_nx table_id b2 _
        ∙ ap (λ new. any (has_new_bucket new) d.to_stay || any (has_new_bucket new) d.to_modify)
            (same2 ∙ same1 ∙ same0))
