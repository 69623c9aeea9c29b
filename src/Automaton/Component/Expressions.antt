-- ===== src/Automaton/Component/Expressions.antt =====
-- lib/re.py, makeDFA: the expressions of a state, where == tells the expressions apart.
use pyretic.Base.{
  ℕ, true, false, some, List, [], ◌∷◌, ◌++◌, ◌≡◌, refl, sym, ◌∙◌, ap, arith, inl, inr, In,
  In-append, Bool-cases, true≢false,
}
use pyretic.Regex.{
  Metadata, Re, empty, epsilon, symbol, concat, star, negate, alter, inters, Res, nil, cons, re_eq,
  deriv,
}
use pyretic.Automaton.{Tables, contains_state, add_state, add_transition}
use pyretic.Automaton.Growth.{Universe, contains-In}
use pyretic.Automaton.Component.{
  metadata_eq, meta_eq, metas_eq, Component, lookup_exps, get_expressions, append_exp,
  add_expression, add_each, add_expressions, add_new_state, ensure_state,
}

metadata_eq_refl : (m : Metadata) → metadata_eq m m ≡ true
unfolding metadata_eq
metadata_eq_refl [] = refl
metadata_eq_refl (m ∷ ms) = ground (arith, metadata_eq_refl ms)

mutual
  unfolding meta_eq

  meta_eq_refl : (r : Re) → meta_eq r r ≡ true
  meta_eq_refl (empty m) = metadata_eq_refl m
  meta_eq_refl (epsilon m) = metadata_eq_refl m
  meta_eq_refl (symbol c m) = ground (arith, metadata_eq_refl m)
  meta_eq_refl (concat r s) = rw (meta_eq_refl r, meta_eq_refl s) refl
  meta_eq_refl (star r) = meta_eq_refl r
  meta_eq_refl (negate r) = meta_eq_refl r
  meta_eq_refl (alter rs) = metas_eq_refl rs
  meta_eq_refl (inters rs) = metas_eq_refl rs

  metas_eq_refl : (rs : Res) → metas_eq rs rs ≡ true
  metas_eq_refl nil = refl
  metas_eq_refl (cons r rs) = rw (meta_eq_refl r, metas_eq_refl rs) refl

-- Every state has itself as its only expression.
abbrev pub own : List Re → List (Re × List Re)
own [] = []
own (q ∷ qs) = (q, q ∷ []) ∷ own qs

-- The state that is appended gets its expression.
append_own :
    (qs : List Re) (q : Re)
    → contains_state re_eq q qs ≡ false
    → re_eq q q ≡ true
    → (lookup_exps (own qs ++ (q, []) ∷ []) q ≡ some [])
      × (append_exp (own qs ++ (q, []) ∷ []) q q ≡ own (qs ++ q ∷ []))
unfolding contains_state lookup_exps append_exp
append_own [] q h k = rw k (refl, refl)
append_own (r ∷ qs) q h k = elim (Bool-cases (re_eq r q)) [
  | inl e ↦ absurd (true≢false (rw e at h))
  | inr e ↦
      let (found, new) = append_own qs q (rw e at h) k in
      rw e (found, ap (λ es. (r, r ∷ []) ∷ es) new)
]

abbrev pub fresh : Component → Re → Component
fresh s qc = record s {
  tables = record s.tables { state_list = s.tables.state_list ++ qc ∷ [] };
  re_to_exp = s.re_to_exp ++ (qc, []) ∷ [];
}

abbrev pub filled : Component → Re → Component
filled s qc = record s {
  tables = record s.tables { state_list = s.tables.state_list ++ qc ∷ [] };
  re_to_exp = own (s.tables.state_list ++ qc ∷ []);
}

pub new_state :
    (s : Component) (qc : Re)
    → contains_state re_eq qc s.tables.state_list ≡ false
    → ensure_state qc s ≡ some (fresh s qc)
unfolding ensure_state add_new_state add_state
new_state s qc h = rw h refl

pub same_states :
    (t t' : Tables Re) (q : Re) (c : ℕ) (r : Re)
    → add_transition re_eq q c r t ≡ some t'
    → t'.state_list ≡ t.state_list
unfolding add_transition
same_states t t' q c r h = ground arith

module _ (alphabet : List ℕ) (us : List Re) (u : Universe re_eq deriv alphabet us) where
  lookup_own :
      (qs : List Re) (q : Re)
      → ((r : Re) → In r qs → In r us)
      → In q us
      → In q qs
      → lookup_exps (own qs) q ≡ some (q ∷ [])
  unfolding lookup_exps
  lookup_own [] q w i j = absurd j
  lookup_own (r ∷ qs) q w i j = elim (Bool-cases (re_eq r q)) [
    | inl e ↦ rw e (ap (λ s. some (s ∷ [])) (u.apart r q (w r (inl refl)) i e))
    | inr e ↦ elim j [
      | inl same ↦ absurd (true≢false (sym (rw same (u.reflexive r)) ∙ e))
      | inr later ↦ rw e (lookup_own qs q (λ s k. w s (inr k)) i later)
    ]
  ]

  -- The tables of a component, each of whose states has itself as its only expression.
  pub record Follows (s : Component) : Type 0 where
    pub exps : s.re_to_exp ≡ own s.tables.state_list
    pub within : (q : Re) → In q s.tables.state_list → In q us

  pub expressions :
      (s : Component) (q : Re)
      → Follows s
      → In q s.tables.state_list
      → get_expressions s q ≡ some (q ∷ [])
  unfolding get_expressions
  expressions s q f i =
      rw (contains-In re_eq deriv alphabet us u q s.tables.state_list i, f.exps)
        (lookup_own s.tables.state_list q f.within (f.within q i) i)

  -- The expression of a state that is there is not added again.
  pub known_expression :
      (s : Component) (qc x : Re)
      → Follows s
      → In qc s.tables.state_list
      → x ≡ qc
      → add_expressions qc (x ∷ []) s ≡ some (false, s)
  unfolding add_expressions add_each add_expression
  known_expression s qc x f i e =
      rw
        (
          e,
          contains-In re_eq deriv alphabet us u qc s.tables.state_list i,
          ap (λ table. lookup_exps table qc) f.exps
              ∙ lookup_own s.tables.state_list qc f.within (f.within qc i) i,
          meta_eq_refl qc,
        )
        refl

  pub new_expression :
      (s : Component) (qc x : Re)
      → Follows s
      → contains_state re_eq qc s.tables.state_list ≡ false
      → x ≡ qc
      → add_expressions qc (x ∷ []) (fresh s qc) ≡ some (true, filled s qc)
  unfolding add_expressions add_each add_expression
  new_expression s qc x f h e =
      let last : In qc (s.tables.state_list ++ qc ∷ []) =
        (In-append qc s.tables.state_list (qc ∷ [])).1 (inr (inl refl)) in
      let (found, new) = append_own s.tables.state_list qc h (u.reflexive qc) in
      rw
        (
          e,
          contains-In re_eq deriv alphabet us u qc (s.tables.state_list ++ qc ∷ []) last,
          f.exps,
          found,
          new,
        )
        refl
