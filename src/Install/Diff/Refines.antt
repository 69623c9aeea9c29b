-- ===== src/Install/Diff/Refines.antt =====
-- get_incremental_diff: what the rules kept for the next time have to do with the new rules.
use pyretic.Base.{
  some_inj, ap₂, none≢some, subst, Bool, true, Option, none, some, List, [], ◌∷◌, ◌++◌, ◌≡◌, refl,
  ◌∙◌, sym, ap, arith, ◌⊎◌, inl, inr, Bool-cases, Option-cases, if◌then◌else◌, bind, push_option,
  filter_map, first_some, find, find_cong, find_same, find-append, find-remove_same,
  find-filter_map, Distinct, Distinct-filter_map, Distinct-remove_same, Distinct-append,
  remove_same,
}
use pyretic.Match.{is_none}
use pyretic.Action.{modify_eq_refl, action_eq_refl}
use pyretic.Install.{filter}
use pyretic.Install.Concrete.{ConcreteAction, dict, object}
use pyretic.Install.Rules.{ListedRule}
use pyretic.Install.Diff.{
  same_rule, same_rule_iff, listed_same, find_same_rule, buckets_removed, actions_eq,
  concrete_action_eq, different_actions, modified_rule, OldRules, sort_old, sort_olds, new_only,
  remove_all, get_incremental_diff,
}

-- What the loop deletes, and what it puts there, for an old rule and the new rule found for it.
abbrev deleted : ListedRule → Option ListedRule → Option ListedRule
deleted old none = some old
deleted old (some new) = if different_actions old.actions new.actions then some old else none

abbrev modified : ListedRule → Option ListedRule → Option ListedRule
modified old none = none
modified old (some new) =
    if different_actions old.actions new.actions then some (modified_rule old new) else none

abbrev added : List ListedRule → ListedRule → Option ListedRule
added old_rules r = if is_none (find r old_rules) then some r else none

sort_old-to_delete :
    (old : ListedRule) (o : Option ListedRule) (rest : OldRules)
    → (sort_old old o rest).to_delete ≡ push_option (deleted old o) rest.to_delete
unfolding sort_old
sort_old-to_delete old none rest = refl
sort_old-to_delete old (some new) rest = ground arith

sort_old-to_add :
    (old : ListedRule) (o : Option ListedRule) (rest : OldRules)
    → (sort_old old o rest).to_add ≡ push_option (modified old o) rest.to_add
unfolding sort_old
sort_old-to_add old none rest = refl
sort_old-to_add old (some new) rest = ground arith

sort_olds-to_delete :
    (olds new_rules : List ListedRule)
    → (sort_olds olds new_rules).to_delete ≡ filter_map (λ r. deleted r (find r new_rules)) olds
unfolding sort_olds find_same_rule
sort_olds-to_delete [] new_rules = refl
sort_olds-to_delete (old ∷ olds) new_rules =
    sort_old-to_delete old (find old new_rules) (sort_olds olds new_rules)
    ∙ ap (push_option (deleted old (find old new_rules))) (sort_olds-to_delete olds new_rules)

sort_olds-to_add :
    (olds new_rules : List ListedRule)
    → (sort_olds olds new_rules).to_add ≡ filter_map (λ r. modified r (find r new_rules)) olds
unfolding sort_olds find_same_rule
sort_olds-to_add [] new_rules = refl
sort_olds-to_add (old ∷ olds) new_rules =
    sort_old-to_add old (find old new_rules) (sort_olds olds new_rules)
    ∙ ap (push_option (modified old (find old new_rules))) (sort_olds-to_add olds new_rules)

filter-as-filter_map :
    (p : ListedRule → Bool) (xs : List ListedRule)
    → filter p xs ≡ filter_map (λ r. if p r then some r else none) xs
filter-as-filter_map p [] = refl
filter-as-filter_map p (x ∷ xs) = ground (arith, filter-as-filter_map p xs)

find-remove_all :
    (t : ListedRule) (lst rules : List ListedRule)
    → Distinct lst
    → find t (remove_all lst rules) ≡ (if is_none (find t rules) then find t lst else none)
unfolding remove_all find
find-remove_all t lst [] h = refl
find-remove_all t lst (r ∷ rules) h =
    find-remove_all t (remove_same r lst) rules (Distinct-remove_same r lst h)
    ∙ ground (arith, find-remove_same t r lst h)

Distinct-remove_all : (lst rules : List ListedRule) → Distinct lst → Distinct (remove_all lst rules)
unfolding remove_all
Distinct-remove_all lst [] h = h
Distinct-remove_all lst (r ∷ rules) h =
    Distinct-remove_all (remove_same r lst) rules (Distinct-remove_same r lst h)

same_as : (r s : ListedRule) → r ≡ s → same_rule r s ≡ true
same_as r s h = (same_rule_iff r s).1 (ap (λ u. u.mat) h, ap (λ u. u.priority) h)

-- What is put into the lists has the match and the priority of the old rule.
deleted_same :
    (r s : ListedRule) (o : Option ListedRule) → deleted r o ≡ some s → same_rule r s ≡ true
deleted_same r s none h = same_as r s (some_inj h)
deleted_same r s (some n) h = elim (Bool-cases (different_actions r.actions n.actions)) [
  | inl e ↦ same_as r s (some_inj (rw e at h))
  | inr e ↦ absurd (none≢some (rw e at h))
]

modified_same :
    (r s : ListedRule) (o : Option ListedRule)
    → ((n : ListedRule) → o ≡ some n → same_rule r n ≡ true)
    → modified r o ≡ some s
    → same_rule r s ≡ true
modified_same r s none f h = absurd (none≢some h)
modified_same r s (some n) f h = elim (Bool-cases (different_actions r.actions n.actions)) [
  | inl e ↦
      let put : modified_rule r n ≡ s = some_inj (rw e at h) in
      let (m, p) = (same_rule_iff r n).0 (f n refl) in
      (same_rule_iff r s).1 (m ∙ ap (λ u. u.mat) put, p ∙ ap (λ u. u.priority) put)
  | inr e ↦ absurd (none≢some (rw e at h))
]

added_same :
    (old_rules : List ListedRule) (r s : ListedRule)
    → added old_rules r ≡ some s
    → same_rule r s ≡ true
added_same old_rules r s h = elim (Option-cases (find r old_rules)) [
  | inl e ↦ same_as r s (some_inj (rw e at h))
  | inr (o, e) ↦ absurd (none≢some (rw e at h))
]

-- Both are missing, or both are there with the same actions but for the buckets that count.
abbrev pub Agree : Option ListedRule → Option ListedRule → Type 0
Agree none none = Unit
Agree (some r) (some s) = actions_eq (buckets_removed r.actions) (buckets_removed s.actions) ≡ true
Agree _ _ = ⊥

concrete_action_eq_refl : (a : ConcreteAction) → concrete_action_eq a a ≡ true
concrete_action_eq_refl (dict d) = modify_eq_refl d
concrete_action_eq_refl (object a) = action_eq_refl a

not_modified : (r : ListedRule) (o : Option ListedRule) → deleted r o ≡ none → modified r o ≡ none
not_modified r none h = refl
not_modified r (some n) h = elim (Bool-cases (different_actions r.actions n.actions)) [
  | inl e ↦ absurd (none≢some (sym (rw e at h)))
  | inr e ↦ rw e refl
]

actions_eq_refl : (acts : List ConcreteAction) → actions_eq acts acts ≡ true
unfolding actions_eq
actions_eq_refl [] = refl
actions_eq_refl (a ∷ acts) = rw (concrete_action_eq_refl a, actions_eq_refl acts) refl

-- An old rule that is also a new one is kept, or changed to it.
Agree-changed :
    (o n : ListedRule)
    → Agree
        (first_some
          (if is_none (deleted o (some n)) then some o else none)
          (first_some (modified o (some n)) none))
        (some n)
unfolding different_actions
Agree-changed o n =
    elim (Bool-cases (actions_eq (buckets_removed o.actions) (buckets_removed n.actions))) [
      | inl e ↦ rw e e
      | inr e ↦ rw e (actions_eq_refl (buckets_removed n.actions))
    ]

module _ (olds news : List ListedRule) (ho : Distinct olds) (hn : Distinct news) where
  abbrev deletes : List ListedRule
  deletes = filter_map (λ r. deleted r (find r news)) olds

  abbrev modifies : List ListedRule
  modifies = filter_map (λ r. modified r (find r news)) olds

  abbrev adds : List ListedRule
  adds = filter_map (added olds) news

  kept-eq : (get_incremental_diff olds news).1 ≡ remove_all olds deletes ++ (modifies ++ adds)
  unfolding get_incremental_diff new_only find_same_rule
  kept-eq =
      rw
        (
          sort_olds-to_delete olds news,
          sort_olds-to_add olds news,
          filter-as-filter_map (λ r. is_none (find r olds)) news,
        )
        refl

  find-deletes :
      (t : ListedRule) → find t deletes ≡ bind (find t olds) (λ r. deleted r (find r news))
  find-deletes t =
      find-filter_map (λ r. deleted r (find r news)) t olds (λ r s. deleted_same r s (find r news))
        ho

  find-modifies :
      (t : ListedRule) → find t modifies ≡ bind (find t olds) (λ r. modified r (find r news))
  find-modifies t =
      find-filter_map (λ r. modified r (find r news)) t olds
        (λ r s. modified_same r s (find r news) (λ n. find_same r news)) ho

  find-adds : (t : ListedRule) → find t adds ≡ bind (find t news) (added olds)
  find-adds t = find-filter_map (added olds) t news (added_same olds) hn

  find-kept :
      (t : ListedRule)
      → find t (get_incremental_diff olds news).1
        ≡ first_some
            (if is_none (bind (find t olds) (λ r. deleted r (find r news)))
              then find t olds
              else none)
            (first_some
              (bind (find t olds) (λ r. modified r (find r news)))
              (bind (find t news) (added olds)))
  find-kept t =
      ap (find t) kept-eq
      ∙ find-append t (remove_all olds deletes) (modifies ++ adds)
      ∙ ap₂ first_some (find-remove_all t olds deletes ho ∙ rw (find-deletes t) refl)
          (find-append t modifies adds ∙ ap₂ first_some (find-modifies t) (find-adds t))

  kept-Agree : (t : ListedRule) → Agree (find t (get_incremental_diff olds news).1) (find t news)
  kept-Agree t = elim (Option-cases (find t olds)) [
    | inl e ↦ elim (Option-cases (find t news)) [
      | inl f ↦ rw (find-kept t, e, f) tt
      | inr (n, f) ↦
          let g : find n olds ≡ none = sym (find_cong t n olds (find_same t news f)) ∙ e in
          rw (find-kept t, e, f, g) (actions_eq_refl (buckets_removed n.actions))
    ]
    | inr (o, e) ↦
        let h : find o news ≡ find t news = sym (find_cong t o news (find_same t olds e)) in
        elim (Option-cases (find t news)) [
          | inl f ↦ rw (find-kept t, e, h, f) tt
          | inr (n, f) ↦
              let g : find n olds ≡ some o = sym (find_cong t n olds (find_same t news f)) ∙ e in
              rw (find-kept t, e, h, f, g) (Agree-changed o n)
        ]
  ]

  -- A rule that replaces an old one does not stand among the new ones only.
  no_adds : (t : ListedRule) {o : ListedRule} → find t olds ≡ some o → find t adds ≡ none
  no_adds t {o} e = find-adds t ∙ elim (Option-cases (find t news)) [
    | inl f ↦ rw f refl
    | inr (n, f) ↦
        let g : find n olds ≡ some o = sym (find_cong t n olds (find_same t news f)) ∙ e in
        rw (f, g) refl
  ]

  apart_adds : (t : ListedRule) → (find t modifies ≡ none) ⊎ (find t adds ≡ none)
  apart_adds t = elim (Option-cases (find t olds)) [
    | inl e ↦ inl (find-modifies t ∙ rw e refl)
    | inr (o, e) ↦ inr (no_adds t e)
  ]

  apart_kept :
      (t : ListedRule)
      → (find t (remove_all olds deletes) ≡ none) ⊎ (find t (modifies ++ adds) ≡ none)
  apart_kept t = elim (Option-cases (find t olds)) [
    | inl e ↦ inl (find-remove_all t olds deletes ho ∙ rw (find-deletes t, e) refl)
    | inr (o, e) ↦ elim (Option-cases (deleted o (find o news))) [
      | inl f ↦
          let unchanged : find t modifies ≡ none =
            find-modifies t ∙ rw e (not_modified o (find o news) f) in
          inr (find-append t modifies adds ∙ rw (unchanged, no_adds t e) refl)
      | inr (d, f) ↦ inl (find-remove_all t olds deletes ho ∙ rw (find-deletes t, e, f) refl)
    ]
  ]

  kept-Distinct : Distinct (get_incremental_diff olds news).1
  kept-Distinct = subst Distinct (sym kept-eq) (
      Distinct-append (remove_all olds deletes) (modifies ++ adds)
        (Distinct-remove_all olds deletes ho)
        (Distinct-append modifies adds
          (Distinct-filter_map (λ r. modified r (find r news)) olds
            (λ r s. modified_same r s (find r news) (λ n. find_same r news)) ho)
          (Distinct-filter_map (added olds) news (added_same olds) hn) apart_adds)
        apart_kept)

  -- Of old rules and of new rules that differ in match or priority, the incremental difference
  -- leaves old rules that differ so too, and among them there is a rule with a given match and
  -- priority just when there is one among the new rules; the two have the same actions, but for
  -- the buckets that count.
  pub get_incremental_diff-Agree :
      Distinct (get_incremental_diff olds news).1
      × ((t : ListedRule)
          → Agree (find_same_rule t (get_incremental_diff olds news).1) (find_same_rule t news))
  unfolding find_same_rule
  get_incremental_diff-Agree = (kept-Distinct, kept-Agree)
