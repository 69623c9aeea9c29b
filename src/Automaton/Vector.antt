-- ===== src/Automaton/Vector.antt =====
-- lib/re.py, makeDFA_vector: the automata of the expressions, and the automaton of the vector.
pub mod Complete
use pyretic.Base.{ℕ, Option, some, List, [], ◌∷◌, map_all, map_option, bind}
use pyretic.Regex.{Re, empty}
use pyretic.Automaton.{Tables, explore_from, vector_eq, deriv_vector}
use pyretic.Automaton.Component.{Component, only_state, make_component}

-- A re_dfa or a re_vector_dfa, with the alphabet that it is given.
pub data Dfa : Type 0 where
  scalar : List ℕ → Component → Dfa
  vector : List ℕ → List Component → Tables (List Re) → Dfa

-- make_null_DFA
unfoldable pub null_dfa : Dfa
null_dfa = scalar [] (only_state (empty []))

-- makeDFA_vector, where each construction has the same fuel; the final states are a function of
-- the states.
unfoldable pub make_dfa : List ℕ → ℕ → List Re → Option Dfa
unfolding null_dfa make_component explore_from vector_eq deriv_vector
make_dfa alphabet n [] = some null_dfa
make_dfa alphabet n (r ∷ rs) = bind (map_all (make_component alphabet n) (r ∷ rs)) (λ components.
    map_option (vector alphabet components)
      (explore_from vector_eq deriv_vector alphabet n (r ∷ rs)))
