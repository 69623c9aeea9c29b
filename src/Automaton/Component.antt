-- ===== src/Automaton/Component.antt =====
-- lib/re.py, makeDFA: the automaton of one expression, whose states keep the expressions that are
-- equal to them up to metadata, and whose transitions keep the metadata they consume.
pub mod Expressions
pub mod Ends
use pyretic.Base.{
  ℕ, zero, suc, ◌==◌, Bool, true, false, ◌&&◌, Option, none, some, List, [], ◌∷◌, ◌++◌, any, map,
  bind, has, if◌then◌else◌,
}
use pyretic.Regex.{
  Metadata, Re, empty, epsilon, symbol, concat, star, negate, alter, inters, Res, nil, cons, re_eq,
  deriv,
}
use pyretic.Regex.Consumed.{deriv_consumed}
use pyretic.Automaton.{Tables, contains_state, add_state, add_transition}

-- == on metadata
unfoldable pub metadata_eq : Metadata → Metadata → Bool
metadata_eq [] [] = true
metadata_eq (m ∷ ms) (n ∷ ns) = m == n && metadata_eq ms ns
metadata_eq _ _ = false

-- equals_meta_structural
unfoldable mutual
  unfolding metadata_eq

  pub meta_eq : Re → Re → Bool
  meta_eq (empty m) (empty n) = metadata_eq m n
  meta_eq (epsilon m) (epsilon n) = metadata_eq m n
  meta_eq (symbol c m) (symbol d n) = c == d && metadata_eq m n
  meta_eq (concat r1 r2) (concat s1 s2) = meta_eq r1 s1 && meta_eq r2 s2
  meta_eq (star r) (star s) = meta_eq r s
  meta_eq (negate r) (negate s) = meta_eq r s
  meta_eq (alter rs) (alter ss) = metas_eq rs ss
  meta_eq (inters rs) (inters ss) = metas_eq rs ss
  meta_eq _ _ = false

  pub metas_eq : Res → Res → Bool
  metas_eq nil nil = true
  metas_eq (cons r rs) (cons s ss) = meta_eq r s && metas_eq rs ss
  metas_eq _ _ = false

-- One entry of transition_to_metadata.
pub record MetaEntry : Type 0 where
  pub state : Re
  pub symbol : ℕ
  pub objects : Metadata

-- The tables, with re_to_exp and transition_to_metadata.
pub record Component : Type 0 where
  pub tables : Tables Re
  pub re_to_exp : List (Re × List Re)
  pub metadata : List MetaEntry

unfoldable pub lookup_exps : List (Re × List Re) → Re → Option (List Re)
lookup_exps [] q = none
lookup_exps (e ∷ es) q = if re_eq e.0 q then some e.1 else lookup_exps es q

-- `none` is the failed assertion.
unfoldable pub get_expressions : Component → Re → Option (List Re)
unfolding contains_state lookup_exps
get_expressions s q =
    if contains_state re_eq q s.tables.state_list then lookup_exps s.re_to_exp q else none

-- re_to_exp[q] += [exp]
unfoldable pub append_exp : List (Re × List Re) → Re → Re → List (Re × List Re)
append_exp [] q exp = []
append_exp (e ∷ es) q exp =
    let rest = append_exp es q exp in if re_eq e.0 q then (e.0, e.1 ++ exp ∷ []) ∷ es else e ∷ rest

-- add_expression: was it added?
unfoldable pub add_expression : List (Re × List Re) → Re → Re → Option (Bool × List (Re × List Re))
unfolding lookup_exps append_exp meta_eq
add_expression table q exp = bind (lookup_exps table q) (λ es.
    if any (λ e. meta_eq e exp) es
    then some (false, table)
    else some (true, append_exp table q exp))

-- The loop of add_expressions: was some expression added?
unfoldable pub add_each : List (Re × List Re) → Re → List Re → Option (Bool × List (Re × List Re))
unfolding add_expression
add_each table q [] = some (false, table)
add_each table q (exp ∷ exps) =
    bind (add_expression table q exp)
      (λ r. bind (add_each r.1 q exps) (λ r'. some (if r.0 then true else r'.0, r'.1)))

unfoldable pub add_expressions : Re → List Re → Component → Option (Bool × Component)
unfolding contains_state add_each
add_expressions q exps s =
    if contains_state re_eq q s.tables.state_list
    then bind (add_each s.re_to_exp q exps) (λ r. some (r.0, record s { re_to_exp = r.1 }))
    else none

-- add_state of re_state_table
unfoldable pub add_new_state : Re → Component → Option Component
unfolding add_state
add_new_state q s =
    bind (add_state re_eq q s.tables)
      (λ t. some (record s { tables = t; re_to_exp = s.re_to_exp ++ (q, []) ∷ [] }))

-- The objects that are not there yet, one by one.
abbrev pub add_objects : Metadata → Metadata → Metadata
add_objects ms [] = ms
add_objects ms (n ∷ ns) = add_objects (if has n ms then ms else ms ++ n ∷ []) ns

unfoldable pub add_metadata : Re → ℕ → Metadata → List MetaEntry → List MetaEntry
add_metadata q c ns [] = record { state = q; symbol = c; objects = add_objects [] ns } ∷ []
add_metadata q c ns (e ∷ es) =
    let rest = add_metadata q c ns es in
    if re_eq e.state q && e.symbol == c
    then record e { objects = add_objects e.objects ns } ∷ es
    else e ∷ rest

-- The two lists of get_transition_exps_metadata.
abbrev pub transition_exps : List Re → ℕ → List Re
transition_exps es c = map (λ e. (deriv_consumed e c).0) es

abbrev pub transition_metadata : List Re → ℕ → Metadata
transition_metadata [] c = []
transition_metadata (e ∷ es) c = (deriv_consumed e c).1 ++ transition_metadata es c

-- add_transition and add_metadata, on both tables
unfoldable pub set_transition : Re → ℕ → Re → Metadata → Component → Option Component
unfolding add_transition add_metadata
set_transition q c qc objects s =
    bind (add_transition re_eq q c qc s.tables)
      (λ t. some (record s { tables = t; metadata = add_metadata q c objects s.metadata }))

-- if not states.contains_state(qc)
unfoldable pub ensure_state : Re → Component → Option Component
unfolding contains_state add_new_state
ensure_state qc s =
    if contains_state re_eq qc s.tables.state_list then some s else add_new_state qc s

-- goto; `rec` explores a state
unfoldable pub goto : (Re → Component → Option Component) → Re → ℕ → Component → Option Component
unfolding get_expressions ensure_state add_expressions set_transition
goto rec q c s =
    let qc = deriv q c in
    bind (get_expressions s q) (λ es. bind (ensure_state qc s) (λ s1.
      bind (add_expressions qc (transition_exps es c) s1) (λ added.
        bind (set_transition q c qc (transition_metadata es c) added.1)
          (λ s3. let further = rec qc s3 in if added.0 then further else some s3))))

-- The loop of explore.
unfoldable pub goto_all :
    (Re → Component → Option Component) → Re → List ℕ → Component → Option Component
unfolding goto
goto_all rec q [] s = some s
goto_all rec q (c ∷ cs) s = bind (goto rec q c s) (goto_all rec q cs)

-- explore, on fuel for the depth of the recursion
unfoldable pub explore : List ℕ → ℕ → Re → Component → Option Component
unfolding goto_all
explore alphabet zero q s = none
explore alphabet (suc n) q s = goto_all (explore alphabet n) q alphabet s

abbrev pub only_state : Re → Component
only_state q0 = record {
  tables = record { state_list = q0 ∷ []; transitions = [] };
  re_to_exp = (q0, q0 ∷ []) ∷ [];
  metadata = [];
}

-- makeDFA; the final states are a function of the states.
unfoldable pub make_component : List ℕ → ℕ → Re → Option Component
unfolding explore
make_component alphabet n q0 = explore alphabet n q0 (only_state q0)
