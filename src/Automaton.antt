-- ===== src/Automaton.antt =====
-- lib/re.py: the tables of an automaton, and the construction of an automaton by derivatives.
pub mod Misses
pub mod Growth
pub mod Explored
pub mod Component
pub mod Vector
pub mod Words
use pyretic.Base.{
  ℕ, zero, suc, ◌+◌, ◌==◌, Bool, true, false, ◌&&◌, ◌||◌, Option, none, some, List, [], ◌∷◌, ◌++◌,
  any, bind, if◌then◌else◌,
}
use pyretic.Regex.{Re, empty, re_eq, deriv, is_nullable}

-- One entry of re_to_transitions.
pub record Transition (S : Type 0) : Type 0 where
  pub state : S
  pub symbol : ℕ
  pub new_state : S

-- dfa_state_table by its state_list, which gives re_table, re_map and si, and
-- dfa_transition_table by the list of what has been set, the last first.
pub record Tables (S : Type 0) : Type 0 where
  pub state_list : List S
  pub transitions : List (Transition S)

-- `==` on states
module _ {S : Type 0} (same : S → S → Bool) where
  unfoldable pub contains_state : S → List S → Bool
  contains_state q states = any (λ s. same s q) states

  unfoldable pub lookup_state_symbol : List (Transition S) → S → ℕ → Option S
  lookup_state_symbol [] q c = none
  lookup_state_symbol (e ∷ es) q c =
      if same e.state q && e.symbol == c then some e.new_state else lookup_state_symbol es q c

  -- The assertion is about an entry that there is.
  abbrev pub agrees : Option S → S → Bool
  agrees none new_state = true
  agrees (some s) new_state = same s new_state

  unfoldable pub add_transition : S → ℕ → S → Tables S → Option (Tables S)
  unfolding lookup_state_symbol
  add_transition q c new_state t =
      if agrees (lookup_state_symbol t.transitions q c) new_state
      then some (record t {
        transitions = record { state = q; symbol = c; new_state = new_state } ∷ t.transitions;
      })
      else none

  unfoldable pub add_state : S → Tables S → Option (Tables S)
  unfolding contains_state
  add_state q t =
      if contains_state q t.state_list
      then none
      else some (record t { state_list = t.state_list ++ q ∷ [] })

  module _ (step : S → ℕ → S) where
    -- goto_vector; `rec` explores the new state
    unfoldable pub goto : (S → Tables S → Option (Tables S)) → S → ℕ → Tables S → Option (Tables S)
    unfolding contains_state add_transition add_state
    goto rec q c t =
        let qc = step q c in
        let old = add_transition q c qc t in
        let new = bind (add_state qc t) (λ t1. bind (add_transition q c qc t1) (rec qc)) in
        if contains_state qc t.state_list then old else new

    -- The loop of explore_vector, over the symbols that are left.
    unfoldable pub goto_all :
        (S → Tables S → Option (Tables S)) → S → List ℕ → Tables S → Option (Tables S)
    unfolding goto
    goto_all rec q [] t = some t
    goto_all rec q (c ∷ cs) t = bind (goto rec q c t) (goto_all rec q cs)

    -- explore_vector, on fuel for the depth of the recursion
    unfoldable pub explore : List ℕ → ℕ → S → Tables S → Option (Tables S)
    unfolding goto_all
    explore alphabet zero q t = none
    explore alphabet (suc n) q t = goto_all (explore alphabet n) q alphabet t

    -- The tables of makeDFA_vector after its call of explore_vector, for the state q0.
    unfoldable pub explore_from : List ℕ → ℕ → S → Option (Tables S)
    unfolding explore
    explore_from alphabet n q0 =
        explore alphabet n q0 (record { state_list = q0 ∷ []; transitions = [] })

-- == on tuples of expressions
unfoldable pub vector_eq : List Re → List Re → Bool
unfolding re_eq
vector_eq [] [] = true
vector_eq (r ∷ rs) (s ∷ ss) = re_eq r s && vector_eq rs ss
vector_eq _ _ = false

unfoldable pub deriv_vector : List Re → ℕ → List Re
unfolding deriv
deriv_vector [] c = []
deriv_vector (r ∷ rs) c = deriv r c ∷ deriv_vector rs c

-- tuple_has_final_state
unfoldable pub has_final_state : List Re → Bool
unfolding is_nullable
has_final_state q = any is_nullable q

-- get_accepting_exps_ordinal, from this ordinal on
unfoldable pub accepting_from : ℕ → List Re → List ℕ
unfolding is_nullable
accepting_from n [] = []
accepting_from n (r ∷ rs) =
    let rest = accepting_from (suc n) rs in if is_nullable r then n ∷ rest else rest

unfoldable pub get_accepting_exps_ordinal : List Re → List ℕ
unfolding accepting_from
get_accepting_exps_ordinal q = accepting_from 0 q
