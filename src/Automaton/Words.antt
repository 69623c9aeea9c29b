-- ===== src/Automaton/Words.antt =====
-- lib/re.py, makeDFA_vector: the state that a word leads to accepts the expressions that match it.
use pyretic.Base.{
  ℕ, suc, ◌<◌, Bool, false, ◌||◌, Option, some, List, [], ◌∷◌, ◌≡◌, refl, sym, ◌∙◌, bind,
  if◌then◌else◌, In, All, All_at, length,
}
use pyretic.Regex.{Re}
use pyretic.Regex.Language.{lang}
use pyretic.Regex.Deriv.{is_nullable-lang, deriv-lang}
use pyretic.Automaton.{
  Transition, Tables, lookup_state_symbol, vector_eq, deriv_vector, has_final_state, accepting_from,
  get_accepting_exps_ordinal,
}
use pyretic.Automaton.Growth.{Universe}
use pyretic.Automaton.Explored.{Leads}
use pyretic.Automaton.Component.{Component}
use pyretic.Automaton.Vector.{vector, make_dfa}
use pyretic.Automaton.Vector.Complete.{Explorable, make_dfa-Complete}

-- The state that the transitions lead to, letter by letter.
abbrev pub walk : List (Transition (List Re)) → List Re → List ℕ → Option (List Re)
walk es q [] = some q
walk es q (c ∷ w) = bind (lookup_state_symbol vector_eq es q c) (λ r. walk es r w)

-- The numbers of the expressions that match the word.
abbrev pub matching_from : ℕ → List Re → List ℕ → List ℕ
matching_from n [] w = []
matching_from n (r ∷ rs) w =
    let rest = matching_from (suc n) rs w in if lang r w then n ∷ rest else rest

abbrev pub any_matches : List Re → List ℕ → Bool
any_matches [] w = false
any_matches (r ∷ rs) w = lang r w || any_matches rs w

accepting_from-matching_from : (n : ℕ) (rs : List Re) → accepting_from n rs ≡ matching_from n rs []
unfolding accepting_from
accepting_from-matching_from n [] = refl
accepting_from-matching_from n (r ∷ rs) =
    rw (is_nullable-lang r, accepting_from-matching_from (suc n) rs) refl

matching_from-deriv_vector :
    (n : ℕ) (rs : List Re) (c : ℕ) (w : List ℕ)
    → matching_from n (deriv_vector rs c) w ≡ matching_from n rs (c ∷ w)
unfolding deriv_vector
matching_from-deriv_vector n [] c w = refl
matching_from-deriv_vector n (r ∷ rs) c w =
    rw (deriv-lang r c w, matching_from-deriv_vector (suc n) rs c w) refl

has_final_state-any_matches : (rs : List Re) → has_final_state rs ≡ any_matches rs []
unfolding has_final_state
has_final_state-any_matches [] = refl
has_final_state-any_matches (r ∷ rs) =
    rw (is_nullable-lang r, sym (has_final_state-any_matches rs)) refl

any_matches-deriv_vector :
    (rs : List Re) (c : ℕ) (w : List ℕ) → any_matches (deriv_vector rs c) w ≡ any_matches rs (c ∷ w)
unfolding deriv_vector
any_matches-deriv_vector [] c w = refl
any_matches-deriv_vector (r ∷ rs) c w = rw (deriv-lang r c w, any_matches-deriv_vector rs c w) refl

-- The state after the word, which accepts what it should.
pub record Accepts (es : List (Transition (List Re))) (q0 : List Re) (w : List ℕ) : Type 0 where
  pub state : List Re
  pub reached : walk es q0 w ≡ some state
  pub ordinals : get_accepting_exps_ordinal state ≡ matching_from 0 q0 w
  pub final : has_final_state state ≡ any_matches q0 w

Accepts-walk :
    (alphabet : List ℕ) (t : Tables (List Re)) (w : List ℕ) (q : List Re)
    → All (λ q. All (λ c. Leads vector_eq deriv_vector t q c) alphabet) t.state_list
    → In q t.state_list
    → All (λ c. In c alphabet) w
    → Accepts t.transitions q w
unfolding get_accepting_exps_ordinal
Accepts-walk alphabet t [] q h i k = record {
  state = q;
  reached = refl;
  ordinals = accepting_from-matching_from 0 q;
  final = has_final_state-any_matches q;
}
Accepts-walk alphabet t (c ∷ w) q h i (k, ks) =
    let (found, there) =
      All_at (λ c. Leads vector_eq deriv_vector t q c) alphabet c
        (All_at (λ q. All (λ c. Leads vector_eq deriv_vector t q c) alphabet) t.state_list q h i)
        k in
    let rest = Accepts-walk alphabet t w (deriv_vector q c) h there ks in
    record {
      state = rest.state;
      reached = rw found rest.reached;
      ordinals = rest.ordinals ∙ matching_from-deriv_vector 0 q c w;
      final = rest.final ∙ any_matches-deriv_vector q c w;
    }

-- For one expression or more: if a finite set of vectors has the vector of the expressions and all
-- derivatives of its members, and a finite set of expressions each of them and all derivatives of
-- its members, and == is reflexive and tells the members of a set apart, then with more fuel than
-- any of the sets has members makeDFA_vector ends, and for every word over the alphabet its
-- transitions lead from the expressions to a state whose accepting ordinals are those of the
-- expressions that match the word, and which is final if and only if one of them does.
pub make_dfa-Accepts :
    (alphabet : List ℕ) (us : List (List Re)) (n : ℕ) (r : Re) (rs : List Re) (w : List ℕ)
    → Universe vector_eq deriv_vector alphabet us
    → In (r ∷ rs) us
    → length us < n
    → All (Explorable alphabet n) (r ∷ rs)
    → All (λ c. In c alphabet) w
    → (components : List Component) × (t : Tables (List Re)) × (make_dfa alphabet n (r ∷ rs)
        ≡ some (vector alphabet components t))
      × Accepts t.transitions (r ∷ rs) w
make_dfa-Accepts alphabet us n r rs w u i bound explorable k =
    let (components, t, is, complete, start, leads) =
      make_dfa-Complete alphabet us n r rs u i bound explorable in
    (components, t, is, Accepts-walk alphabet t w (r ∷ rs) leads start k)
