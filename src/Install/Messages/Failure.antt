-- ===== src/Install/Messages/Failure.antt =====
-- install_classifier, after get_new_rules: when an installation fails.
use pyretic.Base.{
  ℕ, Bool, true, false, ◌&&◌, ◌||◌, not, All, ap₂, Option, none, some, List, [], ◌∷◌, map, any, ◌≡◌,
  refl, sym, ◌∙◌, ap, arith, inl, inr, Bool-cases, Option-cases, if◌then◌else◌, push_option,
  filter_map, find, find-filter_map, Distinct, remove_same, bind, none≢some, some_inj, true≢false,
}
use pyretic.Match.{is_none}
use pyretic.Install.Rules.{ListedRule}
use pyretic.Install.Diff.{
  same_rule, same_rule_iff, listed_same, find_same_rule, different_actions, OldRules, sort_old,
  without_buckets, sort_olds, remove_all, get_incremental_diff, remove_matching_aggregate_buckets,
  get_nuclear_diff, is_netflow_bucket,
}
use pyretic.Install.Bookkeeping.{Books}
use pyretic.Install.Bookkeeping.Steps.{flags, has_new_bucket}
use pyretic.Install.Bookkeeping.Failure.{bookkeep_count_buckets-error}
use pyretic.Install.Messages.{
  Message, Mode, proactive0, proactive1, is_nuclear, get_diff_lists, delete_rules, around,
  install_diff_lists, install_rules, to_tuple,
}

-- The old counterpart of a rule to modify, and a rule that is to be deleted in the end.
abbrev changed : ListedRule → Option ListedRule → Option ListedRule
changed old none = none
changed old (some new) = if different_actions old.actions new.actions then some old else none

abbrev gone : ListedRule → Option ListedRule → Option ListedRule
gone old none = some old
gone old (some new) = none

same_as : (r s : ListedRule) → r ≡ s → same_rule r s ≡ true
same_as r s h = (same_rule_iff r s).1 (ap (λ u. u.mat) h, ap (λ u. u.priority) h)

changed_same :
    (r s : ListedRule) (o : Option ListedRule) → changed r o ≡ some s → same_rule r s ≡ true
changed_same r s none h = absurd (none≢some h)
changed_same r s (some n) h = elim (Bool-cases (different_actions r.actions n.actions)) [
  | inl e ↦ same_as r s (some_inj (rw e at h))
  | inr e ↦ absurd (none≢some (rw e at h))
]

sort_old-to_modify_old :
    (old : ListedRule) (o : Option ListedRule) (rest : OldRules)
    → (sort_old old o rest).to_modify_old ≡ push_option (changed old o) rest.to_modify_old
unfolding sort_old
sort_old-to_modify_old old none rest = refl
sort_old-to_modify_old old (some new) rest = ground arith

sort_olds-to_modify_old :
    (olds news : List ListedRule)
    → (sort_olds olds news).to_modify_old ≡ filter_map (λ r. changed r (find r news)) olds
unfolding sort_olds find_same_rule
sort_olds-to_modify_old [] news = refl
sort_olds-to_modify_old (old ∷ olds) news =
    sort_old-to_modify_old old (find old news) (sort_olds olds news)
    ∙ ap (push_option (changed old (find old news))) (sort_olds-to_modify_old olds news)

find-none :
    (r s : ListedRule) (rules : List ListedRule)
    → find r (s ∷ rules) ≡ none
    → (same_rule r s ≡ false) × (find r rules ≡ none)
unfolding find
find-none r s rules h = elim (Bool-cases (same_rule r s)) [
  | inl e ↦ absurd (none≢some (sym (rw e at h)))
  | inr e ↦ (e, rw e at h)
]

-- A rule that is not among those removed stays at the head.
remove_all_head :
    (r : ListedRule) (lst rules : List ListedRule)
    → find r rules ≡ none
    → remove_all (r ∷ lst) rules ≡ r ∷ remove_all lst rules
unfolding remove_all remove_same find
remove_all_head r lst [] h = refl
remove_all_head r lst (s ∷ rules) h =
    let (other, later) = find-none r s rules h in
    let differ : same_rule s r ≡ false = elim (Bool-cases (same_rule s r)) [
      | inl e ↦ absurd (true≢false (sym (listed_same.same_sym s r e) ∙ other))
      | inr e ↦ e
    ] in
    rw differ (remove_all_head r (remove_same s lst) rules later)

remaining_step :
    (old : ListedRule) (o : Option ListedRule) (rest : OldRules)
    → find old rest.to_modify_old ≡ none
    → remove_all (sort_old old o rest).to_delete (sort_old old o rest).to_modify_old
      ≡ push_option (gone old o) (remove_all rest.to_delete rest.to_modify_old)
unfolding sort_old remove_all remove_same
remaining_step old none rest h = remove_all_head old rest.to_delete rest.to_modify_old h
remaining_step old (some new) rest h =
    elim (Bool-cases (different_actions old.actions new.actions)) [
      | inl e ↦
          let itself : same_rule old old ≡ true = (same_rule_iff old old).1 (refl, refl) in
          rw e (
            ap
              (λ b.
                remove_all (if b then rest.to_delete else old ∷ remove_same old rest.to_delete)
                  rest.to_modify_old)
              itself)
      | inr e ↦ rw e refl
    ]

-- The rules that are deleted in the end are the old ones without a counterpart.
remaining :
    (olds news : List ListedRule)
    → Distinct olds
    → remove_all (sort_olds olds news).to_delete (sort_olds olds news).to_modify_old
      ≡ filter_map (λ r. gone r (find r news)) olds
unfolding sort_olds find_same_rule remove_all
remaining [] news h = refl
remaining (old ∷ olds) news (h, hs) =
    let unchanged : find old (sort_olds olds news).to_modify_old ≡ none =
      ap (find old) (sort_olds-to_modify_old olds news)
      ∙ find-filter_map (λ r. changed r (find r news)) old olds
          (λ r s. changed_same r s (find r news)) hs
      ∙ ap (λ o. bind o (λ r. changed r (find r news))) h in
    remaining_step old (find old news) (sort_olds olds news) unchanged
    ∙ ap (push_option (gone old (find old news))) (remaining olds news hs)

delete_rules-error :
    (olds news : List ListedRule)
    → is_none (
        delete_rules
          (map to_tuple (map without_buckets (filter_map (λ r. gone r (find r news)) olds))))
      ≡ any (λ r. is_none (find r news)) olds
delete_rules-error [] news = refl
delete_rules-error (old ∷ olds) news = elim (Option-cases (find old news)) [
  | inl e ↦ rw e refl
  | inr (n, e) ↦ rw e (delete_rules-error olds news)
]

is_none-around :
    (before : List Message) (o : Option (List Message)) (after : List Message)
    → is_none (around before o after) ≡ is_none o
is_none-around before none after = refl
is_none-around before (some ms) after = refl

-- The rule has a NetflowBucket.
abbrev pub has_netflow_bucket : ListedRule → Bool
has_netflow_bucket r = any is_netflow_bucket r.actions

-- An old rule stays in a new CountBucket, or is to be modified to use one.
abbrev pub blocked : (ℕ → Bool) → ListedRule → Option ListedRule → Bool
blocked new old none = false
blocked new old (some r) =
    if different_actions old.actions r.actions then has_new_bucket new r else has_new_bucket new old

sort_old-blocked :
    (new : ℕ → Bool) (old : ListedRule) (o : Option ListedRule) (rest : OldRules)
    → (any (has_new_bucket new) (sort_old old o rest).to_stay
        || any (has_new_bucket new) (sort_old old o rest).to_modify)
      ≡ (blocked new old o
          || (any (has_new_bucket new) rest.to_stay || any (has_new_bucket new) rest.to_modify))
unfolding sort_old
sort_old-blocked new old none rest = refl
sort_old-blocked new old (some r) rest =
    elim (Bool-cases (different_actions old.actions r.actions)) [
      | inl e ↦ rw e (ground arith)
      | inr e ↦ rw e (ground arith)
    ]

sort_olds-blocked :
    (new : ℕ → Bool) (olds news : List ListedRule)
    → (any (has_new_bucket new) (sort_olds olds news).to_stay
        || any (has_new_bucket new) (sort_olds olds news).to_modify)
      ≡ any (λ r. blocked new r (find r news)) olds
unfolding sort_olds find_same_rule
sort_olds-blocked new [] news = refl
sort_olds-blocked new (old ∷ olds) news =
    sort_old-blocked new old (find old news) (sort_olds olds news)
    ∙ ap (λ b. blocked new old (find old news) || b) (sort_olds-blocked new olds news)

is_none-after :
    (o : Option Books) (p : Option (List Message))
    → is_none (bind o (λ _. p)) ≡ (is_none o || is_none p)
is_none-after none p = refl
is_none-after (some b) p = refl

-- For rules without a NetflowBucket, from old rules that differ in match or priority, an installation
-- fails just when it is incremental, and some old rule has no counterpart, with its match and
-- priority, among the new rules, or has one and counts into a new CountBucket: with the new actions
-- where they differ from the old ones besides the buckets, and with its own where they do not.
pub install_rules-error :
    (mode : Mode) (default_cookie version table_id : ℕ) (switches : List ℕ) (use_nx : Bool)
    (books : Books) (olds news : List ListedRule)
    → All (λ r. has_netflow_bucket r ≡ false) olds
    → All (λ r. has_netflow_bucket r ≡ false) news
    → Distinct olds
    → is_none (install_rules mode default_cookie version table_id switches use_nx books olds news).0
      ≡ (not (is_nuclear mode)
          && (any (λ r. blocked (flags books.buckets) r (find_same_rule r news)) olds
              || any (λ r. is_none (find_same_rule r news)) olds))
unfolding install_rules install_diff_lists get_diff_lists get_incremental_diff get_nuclear_diff
    remove_matching_aggregate_buckets find_same_rule
install_rules-error proactive0 default_cookie version table_id switches use_nx books olds news _ _
      h =
    is_none-after _ _
    ∙ ap (λ b. b || false)
        (bookkeep_count_buckets-error use_nx table_id switches (get_nuclear_diff olds news).0 books)
install_rules-error proactive1 default_cookie version table_id switches use_nx books olds news _ _
      h =
    is_none-after _ _
    ∙ ap₂ ◌||◌
        (bookkeep_count_buckets-error use_nx table_id switches (get_incremental_diff olds news).0
            books
          ∙ sort_olds-blocked (flags books.buckets) olds news)
        (is_none-around _ _ _
          ∙ ap (λ rs. is_none (delete_rules (map to_tuple (map without_buckets rs))))
              (remaining olds news h)
          ∙ delete_rules-error olds news)
