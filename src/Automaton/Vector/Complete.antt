-- ===== src/Automaton/Vector/Complete.antt =====
-- lib/re.py, makeDFA_vector: it ends, and all its automata have all of their transitions.
use pyretic.Base.{
  ℕ, ◌<◌, some, List, [], ◌∷◌, ◌≡◌, refl, sym, ◌∙◌, In, All, length, map_all, subst, some_inj,
}
use pyretic.Regex.{Re, re_eq, deriv}
use pyretic.Automaton.{Tables, vector_eq, deriv_vector}
use pyretic.Automaton.Growth.{Universe}
use pyretic.Automaton.Explored.{Leads, explore_from-Complete}
use pyretic.Automaton.Component.{Component, make_component}
use pyretic.Automaton.Component.Ends.{make_component-tables}
use pyretic.Automaton.Vector.{vector, make_dfa}

-- A finite set, with fewer members than there is fuel, has the expression and all derivatives of its
-- members, which == tells apart.
abbrev pub Explorable : List ℕ → ℕ → Re → Type 0
Explorable alphabet n r =
    (vs : List Re) × Universe re_eq deriv alphabet vs × In r vs × (length vs < n)

-- The expression is a state of its automaton, and every state has its transitions.
abbrev pub IsComplete : List ℕ → Re → Component → Type 0
IsComplete alphabet r s =
    In r s.tables.state_list
    × All (λ q. All (λ c. Leads re_eq deriv s.tables q c) alphabet) s.tables.state_list

-- One such automaton for each expression.
abbrev pub AllComplete : List ℕ → List Re → List Component → Type 0
AllComplete alphabet [] [] = Unit
AllComplete alphabet (r ∷ rs) (s ∷ ss) = IsComplete alphabet r s × AllComplete alphabet rs ss
AllComplete alphabet _ _ = ⊥

make_component-IsComplete :
    (alphabet : List ℕ) (n : ℕ) (r : Re)
    → Explorable alphabet n r
    → (s : Component) × (make_component alphabet n r ≡ some s) × IsComplete alphabet r s
make_component-IsComplete alphabet n r (vs, u, i, bound) =
    let (s, is, tables) = make_component-tables alphabet vs u n r i bound in
    let (t, explored, start, leads) = explore_from-Complete re_eq deriv alphabet vs u n r i bound in
    let same : t ≡ s.tables = some_inj (sym explored ∙ tables) in
    (
      s,
      is,
      subst
          (λ x.
            In r x.state_list × All (λ q. All (λ c. Leads re_eq deriv x q c) alphabet) x.state_list)
          same (start, leads),
    )

components-AllComplete :
    (alphabet : List ℕ) (n : ℕ) (rs : List Re)
    → All (Explorable alphabet n) rs
    → (ss : List Component) × (map_all (make_component alphabet n) rs ≡ some ss)
      × AllComplete alphabet rs ss
components-AllComplete alphabet n [] h = ([], refl, tt)
components-AllComplete alphabet n (r ∷ rs) (h, hs) =
    let (s, e, complete) = make_component-IsComplete alphabet n r h in
    let (ss, es, rest) = components-AllComplete alphabet n rs hs in
    (s ∷ ss, rw (e, es) refl, (complete, rest))

-- For one expression or more: if a finite set of vectors has the vector of the expressions and all
-- derivatives of its members, and a finite set of expressions each of them and all derivatives of
-- its members, and == is reflexive and tells the members of a set apart, then with more fuel than
-- any of the sets has members makeDFA_vector ends without an assertion that fails. In the automaton
-- of the vector and in those of the expressions the first state is in the table, and for every state
-- of the table and symbol of the alphabet there is a transition to the derivative, which is in the
-- table.
pub make_dfa-Complete :
    (alphabet : List ℕ) (us : List (List Re)) (n : ℕ) (r : Re) (rs : List Re)
    → Universe vector_eq deriv_vector alphabet us
    → In (r ∷ rs) us
    → length us < n
    → All (Explorable alphabet n) (r ∷ rs)
    → (components : List Component) × (t : Tables (List Re)) × (make_dfa alphabet n (r ∷ rs)
        ≡ some (vector alphabet components t))
      × AllComplete alphabet (r ∷ rs) components
      × In (r ∷ rs) t.state_list
      × All (λ q. All (λ c. Leads vector_eq deriv_vector t q c) alphabet) t.state_list
unfolding make_dfa
make_dfa-Complete alphabet us n r rs u i bound explorable =
    let (t, is, start, leads) =
      explore_from-Complete vector_eq deriv_vector alphabet us u n (r ∷ rs) i bound in
    let (components, e, complete) = components-AllComplete alphabet n (r ∷ rs) explorable in
    (components, t, rw (e, is) refl, complete, start, leads)
