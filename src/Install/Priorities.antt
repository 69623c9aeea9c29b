-- ===== src/Install/Priorities.antt =====
-- prioritize: the priorities of a switch fall strictly, from table_start_priority.
use pyretic.Base.{
  Distinct, find, int_eq_iff, negsuc, int_lt-int_eq, some_inj, true, false, Option, none, some,
  List, [], ◌∷◌, ◌≡◌, refl, sym, ◌∙◌, ap, arith, inl, inr, All, Bool-cases, ℤ, pos, int_lt,
  int_lt-pred, int_lt_trans, if◌then◌else◌, subst, true≢false,
}
use pyretic.Packet.{header, switch, Value, option_eq, option_eq_iff}
use pyretic.Install.Concrete.{has_key, key_entry, ConcreteRule}
use pyretic.Install.Diff.{same_rule, same_rule_iff, listed_same}
use pyretic.Install.Rules.{
  ListedRule, table_start_priority, Priorities, next_priority, set_priority, list_rule,
  prioritize_from, prioritize,
}

-- What the next priority of a switch stays below.
abbrev ceiling : Option ℤ → ℤ
ceiling none = pos 60001
ceiling (some z) = z

-- The rule is for a switch, and its priority is below the ceiling that the switch has.
abbrev Below : Priorities → ListedRule → Type 0
Below priority r =
    (s : Option Value) × (r.mat (header switch) ≡ some s)
    × (int_lt r.priority (ceiling (priority s)) ≡ true)

-- Of two rules for a switch, the one that stands first has the higher priority.
abbrev pub Falling : List ListedRule → Type 0
Falling [] = Unit
Falling (r ∷ rs) =
    All (λ t. r.mat (header switch) ≡ t.mat (header switch) → int_lt t.priority r.priority ≡ true)
      rs
    × Falling rs

next_priority-ceiling : (o : Option ℤ) → int_lt (next_priority o) (ceiling o) ≡ true
unfolding int_lt
next_priority-ceiling none = refl
next_priority-ceiling (some z) = int_lt-pred z

Below-set_priority :
    (priority : Priorities) (s : Option Value) (r : ListedRule)
    → Below (set_priority priority s (next_priority (priority s))) r
    → Below priority r
Below-set_priority priority s r (t, e, h) =
    let z = next_priority (priority s) in
    let below : int_lt r.priority (ceiling (if option_eq s t then some z else priority t)) ≡ true =
      h in
    elim (Bool-cases (option_eq s t)) [
      | inl same ↦
          let lower : int_lt z (ceiling (priority t)) ≡ true =
            subst (λ u. int_lt z (ceiling (priority u)) ≡ true) ((option_eq_iff s t).0 same)
              (next_priority-ceiling (priority s)) in
          (t, e, int_lt_trans r.priority z (ceiling (priority t)) (rw same at below) lower)
      | inr other ↦ (t, e, rw other at below)
    ]

Below-same :
    (priority : Priorities) (s : Option Value) (z : ℤ) (r : ListedRule)
    → Below (set_priority priority s z) r
    → r.mat (header switch) ≡ some s
    → int_lt r.priority z ≡ true
Below-same priority s z r (t, e, h) k =
    let same : t ≡ s = some_inj (sym e ∙ k) in
    let below : int_lt r.priority (ceiling (if option_eq s t then some z else priority t)) ≡ true =
      h in
    rw ((option_eq_iff s t).1 (sym same)) at below

All-map :
    {A : Type 0} {P Q : A → Type 0} (xs : List A) → ((x : A) → P x → Q x) → All P xs → All Q xs
All-map [] f h = tt
All-map (x ∷ xs) f (h, hs) = (f x h, All-map xs f hs)

abbrev Descends : Priorities → List ListedRule → Type 0
Descends priority out = All (Below priority) out × Falling out

prioritize_from-Falling :
    (priority : Priorities) (rs : List ConcreteRule)
    → All (λ r. has_key r.mat (header switch) ≡ true) rs
    → (out : List ListedRule) × (prioritize_from priority rs ≡ some out) × Descends priority out
unfolding prioritize_from
prioritize_from-Falling priority [] h = ([], refl, (tt, tt))
prioritize_from-Falling priority (r ∷ rs) (h, hs) =
    let (s, e) = key_entry r.mat (header switch) h in
    let z = next_priority (priority s) in
    let (rest, k, (below, falling)) = prioritize_from-Falling (set_priority priority s z) rs hs in
    (
      list_rule r z ∷ rest,
      rw (e, k) refl,
      (
        (
          (s, e, next_priority-ceiling (priority s)),
          All-map rest (Below-set_priority priority s) below,
        ),
        (All-map rest (λ t b same. Below-same priority s z t b (sym same ∙ e)) below, falling),
      ),
    )

at_most : (x : ℤ) → int_lt x (pos 60001) ≡ true → int_lt (pos table_start_priority) x ≡ false
unfolding int_lt
at_most (pos n) h = ground arith
at_most (negsuc n) h = refl

int_lt_irrefl : (x : ℤ) → int_lt x x ≡ true → ⊥
int_lt_irrefl x h = true≢false (sym ((int_eq_iff x x).1 refl) ∙ int_lt-int_eq x x h)

lower_find :
    (r : ListedRule) (rs : List ListedRule)
    → All
        (λ t. r.mat (header switch) ≡ t.mat (header switch) → int_lt t.priority r.priority ≡ true)
        rs
    → find r rs ≡ none
unfolding find
lower_find r [] h = refl
lower_find r (t ∷ rs) (h, hs) = elim (Bool-cases (same_rule r t)) [
  | inl e ↦
      let (m, p) = (same_rule_iff r t).0 e in
      absurd (
        int_lt_irrefl t.priority
          (subst (λ z. int_lt t.priority z ≡ true) p (h (ap (λ d. d (header switch)) m))))
  | inr e ↦ rw e (lower_find r rs hs)
]

Falling-Distinct : (rs : List ListedRule) → Falling rs → Distinct rs
Falling-Distinct [] h = tt
Falling-Distinct (r ∷ rs) (h, hs) = (lower_find r rs h, Falling-Distinct rs hs)

-- Of rules that are each for one switch, prioritize makes listed rules where, for a switch, the
-- priorities fall strictly from the first rule to the last and are at most
-- table_start_priority; so no two listed rules have the same match and priority.
pub prioritize-Falling :
    (rs : List ConcreteRule)
    → All (λ r. has_key r.mat (header switch) ≡ true) rs
    → (out : List ListedRule) × (prioritize rs ≡ some out)
      × Falling out
      × All (λ r. int_lt (pos table_start_priority) r.priority ≡ false) out
      × Distinct out
unfolding prioritize
prioritize-Falling rs h =
    let (out, e, (below, falling)) = prioritize_from-Falling (λ s. none) rs h in
    (
      out,
      e,
      falling,
      All-map out (λ r (s, k, l). at_most r.priority l) below,
      Falling-Distinct out falling,
    )
