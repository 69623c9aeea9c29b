-- ===== src/Automaton/Component/Ends.antt =====
-- lib/re.py, makeDFA: it ends, since it explores what the construction without metadata explores.
use pyretic.Base.{
  ℕ, zero, suc, ◌<◌, true, false, Option, some, List, [], ◌∷◌, ◌≡◌, refl, sym, ◌∙◌, ap, inl, inr,
  In, In-append, Bool-cases, Option-cases, length, none≢some, some_inj,
}
use pyretic.Regex.{Re, re_eq, deriv}
use pyretic.Regex.Consumed.{deriv_consumed, deriv_consumed-deriv}
use pyretic.Automaton
use pyretic.Automaton.{Tables, contains_state, add_state, add_transition, explore_from}
use pyretic.Automaton.Growth.{Universe, In-contains}
use pyretic.Automaton.Explored.{explore_from-Complete}
use pyretic.Automaton.Component.{
  Component, set_transition, ensure_state, goto, goto_all, explore, only_state, make_component,
  transition_metadata, add_metadata,
}
use pyretic.Automaton.Component.Expressions.{
  own, Follows, expressions, known_expression, fresh, filled, new_state, new_expression,
  same_states,
}

module _ (alphabet : List ℕ) (us : List Re) (u : Universe re_eq deriv alphabet us) where
  -- The component after a step, whose tables are these.
  record After (t' : Tables Re) (before : List Re) (result : Option Component) : Type 0 where
    after : Component
    is_result : result ≡ some after
    tables : after.tables ≡ t'
    follows : Follows alphabet us u after
    kept : (q : Re) → In q before → In q t'.state_list

  -- What the construction without metadata does, makeDFA does on its tables.
  abbrev Simulates :
      (Re → Tables Re → Option (Tables Re)) → (Re → Component → Option Component) → Type 0
  Simulates rec rec' =
      (q : Re) (s : Component) (t' : Tables Re)
      → Follows alphabet us u s
      → In q s.tables.state_list
      → rec q s.tables ≡ some t'
      → After t' s.tables.state_list (rec' q s)

  known_goto :
      (rec' : Re → Component → Option Component) (q : Re) (c : ℕ) (s : Component) (t' : Tables Re)
      → Follows alphabet us u s
      → In q s.tables.state_list
      → In (deriv q c) us
      → contains_state re_eq (deriv q c) s.tables.state_list ≡ true
      → add_transition re_eq q c (deriv q c) s.tables ≡ some t'
      → After t' s.tables.state_list (goto rec' q c s)
  unfolding goto ensure_state set_transition
  known_goto rec' q c s t' f i inside h e =
      let qc = deriv q c in
      let there = In-contains re_eq deriv alphabet us u qc s.tables.state_list f.within inside h in
      let same = same_states s.tables t' q c qc e in
      record {
        after = record s {
          tables = t';
          metadata = add_metadata q c (transition_metadata (q ∷ []) c) s.metadata;
        };
        is_result =
            rw
              (
                expressions alphabet us u s q f i,
                h,
                known_expression alphabet us u s qc (deriv_consumed q c).0 f there
                    (deriv_consumed-deriv q c),
                e,
              )
              refl;
        tables = refl;
        follows = record {
          exps = f.exps ∙ ap own (sym same);
          within = λ r k. f.within r (rw same at k);
        };
        kept = λ r k. rw same k;
      }

  new_goto :
      (rec : Re → Tables Re → Option (Tables Re)) (rec' : Re → Component → Option Component)
      (q : Re) (c : ℕ) (s : Component) (t2 t' : Tables Re)
      → Simulates rec rec'
      → Follows alphabet us u s
      → In q s.tables.state_list
      → In (deriv q c) us
      → contains_state re_eq (deriv q c) s.tables.state_list ≡ false
      → add_transition re_eq q c (deriv q c) (fresh s (deriv q c)).tables ≡ some t2
      → rec (deriv q c) t2 ≡ some t'
      → After t' s.tables.state_list (goto rec' q c s)
  unfolding goto set_transition
  new_goto rec rec' q c s t2 t' sim f i inside h e k =
      let qc = deriv q c in
      let same = same_states (fresh s qc).tables t2 q c qc e in
      let s3 = record (filled s qc) {
        tables = t2;
        metadata = add_metadata q c (transition_metadata (q ∷ []) c) s.metadata;
      } in
      let more : (r : Re) → In r s.tables.state_list → In r t2.state_list =
        λ r j. rw same ((In-append r s.tables.state_list (qc ∷ [])).1 (inl j)) in
      let last : In qc t2.state_list =
        rw same ((In-append qc s.tables.state_list (qc ∷ [])).1 (inr (inl refl))) in
      let f3 : Follows alphabet us u s3 = record {
        exps = ap own (sym same);
        within = λ r j. elim ((In-append r s.tables.state_list (qc ∷ [])).0 (rw same at j)) [
          | inl before ↦ f.within r before
          | inr (inl new) ↦ rw new inside
          | inr (inr nowhere) ↦ absurd nowhere
        ];
      } in
      let next = sim qc s3 t' f3 last k in
      record {
        after = next.after;
        is_result =
            rw
              (
                expressions alphabet us u s q f i,
                new_state s qc h,
                new_expression alphabet us u s qc (deriv_consumed q c).0 f h
                    (deriv_consumed-deriv q c),
                e,
              )
              next.is_result;
        tables = next.tables;
        follows = next.follows;
        kept = λ r j. next.kept r (more r j);
      }

  goto-After :
      (rec : Re → Tables Re → Option (Tables Re)) (rec' : Re → Component → Option Component)
      (q : Re) (c : ℕ) (s : Component) (t' : Tables Re)
      → Simulates rec rec'
      → Follows alphabet us u s
      → In q s.tables.state_list
      → In c alphabet
      → Automaton.goto re_eq deriv rec q c s.tables ≡ some t'
      → After t' s.tables.state_list (goto rec' q c s)
  unfolding Automaton.goto add_state
  goto-After rec rec' q c s t' sim f i j h =
      let qc = deriv q c in
      let inside = u.closed q c (f.within q i) j in
      elim (Bool-cases (contains_state re_eq qc s.tables.state_list)) [
        | inl e ↦ known_goto rec' q c s t' f i inside e (rw e at h)
        | inr e ↦ elim (Option-cases (add_transition re_eq q c qc (fresh s qc).tables)) [
          | inl k ↦ absurd (none≢some (rw (e, k) at h))
          | inr (t2, k) ↦ new_goto rec rec' q c s t2 t' sim f i inside e k (rw (e, k) at h)
        ]
      ]

  goto_all-After :
      (rec : Re → Tables Re → Option (Tables Re)) (rec' : Re → Component → Option Component)
      (q : Re) (cs : List ℕ) (s : Component) (t' : Tables Re)
      → Simulates rec rec'
      → Follows alphabet us u s
      → In q s.tables.state_list
      → ((c : ℕ) → In c cs → In c alphabet)
      → Automaton.goto_all re_eq deriv rec q cs s.tables ≡ some t'
      → After t' s.tables.state_list (goto_all rec' q cs s)
  unfolding Automaton.goto_all goto_all
  goto_all-After rec rec' q [] s t' sim f i j h = record {
    after = s;
    is_result = refl;
    tables = some_inj h;
    follows = f;
    kept = λ r k. rw (← some_inj h) k;
  }
  goto_all-After rec rec' q (c ∷ cs) s t' sim f i j h =
      elim (Option-cases (Automaton.goto re_eq deriv rec q c s.tables)) [
        | inl e ↦ absurd (none≢some (rw e at h))
        | inr (t1, e) ↦
            let a = goto-After rec rec' q c s t1 sim f i (j c (inl refl)) e in
            let there : In q a.after.tables.state_list = rw (a.tables) (a.kept q i) in
            let b =
              goto_all-After rec rec' q cs a.after t' sim a.follows there (λ d k. j d (inr k))
                (rw (a.tables) (rw e at h)) in
            record {
              after = b.after;
              is_result = rw (a.is_result) b.is_result;
              tables = b.tables;
              follows = b.follows;
              kept = λ r k. b.kept r (rw (a.tables) (a.kept r k));
            }
      ]

  explore-Simulates :
      (n : ℕ) → Simulates (Automaton.explore re_eq deriv alphabet n) (explore alphabet n)
  unfolding Automaton.explore explore
  explore-Simulates zero q s t' f i h = absurd (none≢some h)
  explore-Simulates (suc n) q s t' f i h =
      goto_all-After (Automaton.explore re_eq deriv alphabet n) (explore alphabet n) q alphabet s t'
        (explore-Simulates n) f i (λ c k. k) h

  -- The construction ends, with the tables of the construction without metadata.
  pub make_component-tables :
      (n : ℕ) (q0 : Re)
      → In q0 us
      → length us < n
      → (s : Component) × (make_component alphabet n q0 ≡ some s)
        × (explore_from re_eq deriv alphabet n q0 ≡ some s.tables)
  unfolding make_component explore_from
  make_component-tables n q0 i bound =
      let (t, is, start, leads) = explore_from-Complete re_eq deriv alphabet us u n q0 i bound in
      let f : Follows alphabet us u (only_state q0) = record {
        exps = refl;
        within = λ q. elim [ inl e ↦ rw e i | inr k ↦ absurd k ];
      } in
      let a = explore-Simulates n q0 (only_state q0) t f (inl refl) is in
      (a.after, a.is_result, is ∙ ap some (sym a.tables))
