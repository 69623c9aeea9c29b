-- ===== src/Automaton/Explored.antt =====
-- lib/re.py, explore_vector: it ends, and each state that it adds gets all of its transitions.
use pyretic.Base.{
  length, All_of, ℕ, zero, suc, ◌<◌, ◌≤◌, Bool, false, Option, some, List, [], ◌∷◌, ◌++◌, ◌≡◌, refl,
  arith, inl, inr, In, In-append, All, Bool-cases, subst,
}
use pyretic.Automaton.{
  Tables, contains_state, lookup_state_symbol, add_state, goto, goto_all, explore, explore_from,
}
use pyretic.Automaton.Misses.{misses-lt, misses-length}
use pyretic.Automaton.Growth.{
  Universe, IsSound, Has, Complete, unseen, Grows, Complete-Grows, Grows-trans, Grows-refl,
  contains-In, In-contains, Added, add_transition-Added, with_state, contains-more, lookup-In,
}

-- The symbol leads from the state to the state that it should, which is in the table.
abbrev pub Leads : {S : Type 0} → (S → S → Bool) → (S → ℕ → S) → Tables S → S → ℕ → Type 0
Leads same step t q c =
    (lookup_state_symbol same t.transitions q c ≡ some (step q c)) × In (step q c) t.state_list

module _ {S : Type 0} (same : S → S → Bool) (step : S → ℕ → S) (alphabet : List ℕ) (us : List S)
    (u : Universe same step alphabet us) where
  -- The recursive call ends where fewer than `n` states are unseen, and completes its state.
  abbrev Explores : ℕ → (S → Tables S → Option (Tables S)) → Type 0
  Explores n rec =
      (q : S) (t : Tables S)
      → IsSound same step alphabet us u t
      → In q us
      → unseen same step alphabet us u t < n
      → (t' : Tables S) × (rec q t ≡ some t')
        × Grows same step alphabet us u t t'
        × Complete same step alphabet us u t' q

  fresh_state :
      (n : ℕ) (rec : S → Tables S → Option (Tables S)) (q : S) (c : ℕ) (t : Tables S)
      → Explores n rec
      → IsSound same step alphabet us u t
      → In q us
      → In c alphabet
      → unseen same step alphabet us u t ≤ n
      → contains_state same (step q c) t.state_list ≡ false
      → Added same step alphabet us u t q c (goto same step rec q c t)
  unfolding goto add_state
  fresh_state n rec q c t ih s i j bound new =
      let qc = step q c in
      let in_us = u.closed q c i j in
      let last : In qc (t.state_list ++ qc ∷ []) =
        (In-append qc t.state_list (qc ∷ [])).1 (inr (inl refl)) in
      let s1 : IsSound same step alphabet us u (with_state same step alphabet us u qc t) = record {
        states = λ r k. elim ((In-append r t.state_list (qc ∷ [])).0 k) [
          | inl before ↦ s.states r before
          | inr (inl e) ↦ rw e in_us
          | inr (inr nowhere) ↦ absurd nowhere
        ];
        sources = s.sources;
        steps = λ e k. (
          (s.steps e k).0,
          (In-append e.new_state t.state_list (qc ∷ [])).1 (inl (s.steps e k).1),
        );
      } in
      let less : unseen same step alphabet us u (with_state same step alphabet us u qc t)
          < unseen same step alphabet us u t =
        misses-lt (λ r. contains_state same r t.state_list)
          (λ r. contains_state same r (t.state_list ++ qc ∷ [])) us qc
          (λ r. contains-more same step alphabet us u r qc t.state_list) in_us new
          (contains-In same step alphabet us u qc (t.state_list ++ qc ∷ []) last) in
      let a =
        add_transition-Added same step alphabet us u (with_state same step alphabet us u qc t) q c
          s1 i last in
      let further = a.grows.fewer in
      let (t3, is, g, done) = ih qc a.after a.grows.sound in_us (omega arith) in
      record {
        after = t3;
        is_result = rw (new, a.is_result) is;
        grows = record {
          sound = g.sound;
          kept = λ r k. g.kept r (a.grows.kept r ((In-append r t.state_list (qc ∷ [])).1 (inl k)));
          has = λ r d k h. g.has r d k (a.grows.has r d k h);
          fewer = omega (arith, g.fewer);
          complete = λ r k. elim (g.complete r k) [
            | inr all_there ↦ inr all_there
            | inl before ↦ elim (a.grows.complete r before) [
              | inr all_there ↦ inr (
                  Complete-Grows same step alphabet us u a.after t3 r
                    (a.grows.sound.states r before) g all_there)
              | inl first ↦ elim ((In-append r t.state_list (qc ∷ [])).0 first) [
                | inl old ↦ inl old
                | inr (inl e) ↦ inr (rw e done)
                | inr (inr nowhere) ↦ absurd nowhere
              ]
            ]
          ];
        };
        found = g.has q c i a.found;
      }

  goto-Added :
      (n : ℕ) (rec : S → Tables S → Option (Tables S)) (q : S) (c : ℕ) (t : Tables S)
      → Explores n rec
      → IsSound same step alphabet us u t
      → In q us
      → In c alphabet
      → unseen same step alphabet us u t ≤ n
      → Added same step alphabet us u t q c (goto same step rec q c t)
  unfolding goto
  goto-Added n rec q c t ih s i j bound =
      elim (Bool-cases (contains_state same (step q c) t.state_list)) [
        | inl e ↦
            let there =
              In-contains same step alphabet us u (step q c) t.state_list s.states
                (u.closed q c i j) e in
            let a = add_transition-Added same step alphabet us u t q c s i there in
            record {
              after = a.after;
              is_result = rw e a.is_result;
              grows = a.grows;
              found = a.found;
            }
        | inr e ↦ fresh_state n rec q c t ih s i j bound e
      ]

  pub record AllAdded (t : Tables S) (q : S) (cs : List ℕ) (result : Option (Tables S))
      : Type 0 where
    pub after : Tables S
    pub is_result : result ≡ some after
    pub grows : Grows same step alphabet us u t after
    pub found : (c : ℕ) → In c cs → Has same step alphabet us u after q c

  goto_all-AllAdded :
      (n : ℕ) (rec : S → Tables S → Option (Tables S)) (q : S) (cs : List ℕ) (t : Tables S)
      → Explores n rec
      → IsSound same step alphabet us u t
      → In q us
      → ((c : ℕ) → In c cs → In c alphabet)
      → unseen same step alphabet us u t ≤ n
      → AllAdded t q cs (goto_all same step rec q cs t)
  unfolding goto_all
  goto_all-AllAdded n rec q [] t ih s i j bound = record {
    after = t;
    is_result = refl;
    grows = Grows-refl same step alphabet us u t s;
    found = λ c k. absurd k;
  }
  goto_all-AllAdded n rec q (c ∷ cs) t ih s i j bound =
      let a = goto-Added n rec q c t ih s i (j c (inl refl)) bound in
      let fewer = a.grows.fewer in
      let b =
        goto_all-AllAdded n rec q cs a.after ih a.grows.sound i (λ d k. j d (inr k))
          (omega arith) in
      record {
        after = b.after;
        is_result = rw a.is_result b.is_result;
        grows = Grows-trans same step alphabet us u t a.after b.after a.grows b.grows a.grows.sound;
        found = λ d. elim [ inl e ↦ rw e (b.grows.has q c i a.found) | inr k ↦ b.found d k ];
      }

  explore-Explores : (n : ℕ) → Explores n (explore same step alphabet n)
  unfolding explore
  explore-Explores zero q t s i bound = absurd (omega arith)
  explore-Explores (suc n) q t s i bound =
      let a =
        goto_all-AllAdded n (explore same step alphabet n) q alphabet t (explore-Explores n) s i
          (λ c k. k) (omega arith) in
      (a.after, a.is_result, a.grows, a.found)

  abbrev only : S → Tables S
  only q0 = record { state_list = q0 ∷ []; transitions = [] }

  all_found :
      (q0 : S) (t : Tables S)
      → Grows same step alphabet us u (only q0) t
      → Complete same step alphabet us u t q0
      → (q : S) → In q t.state_list
      → Complete same step alphabet us u t q
  all_found q0 t g done q j = elim (g.complete q j) [
    | inl (inl e) ↦ rw e done
    | inl (inr nowhere) ↦ absurd nowhere
    | inr complete ↦ complete
  ]

  -- With more fuel than the finite set has members, the exploration ends without an assertion that
  -- fails, and every state of the table has a transition for each symbol of the alphabet.
  pub explore_from-Complete :
      (n : ℕ) (q0 : S)
      → In q0 us
      → length us < n
      → (t : Tables S) × (explore_from same step alphabet n q0 ≡ some t)
        × In q0 t.state_list
        × All (λ q. All (λ c. Leads same step t q c) alphabet) t.state_list
  unfolding explore_from
  explore_from-Complete n q0 i bound =
      let t0 : Tables S = record { state_list = q0 ∷ []; transitions = [] } in
      let few = misses-length (λ q. contains_state same q (q0 ∷ [])) us in
      let s0 : IsSound same step alphabet us u t0 = record {
        states = λ q. elim [ inl e ↦ rw e i | inr k ↦ absurd k ];
        sources = λ e k. absurd k;
        steps = λ e k. absurd k;
      } in
      let (t, is, g, done) = explore-Explores n q0 t0 s0 i (omega arith) in
      (
        t,
        is,
        g.kept q0 (inl refl),
        All_of (λ q. All (λ c. Leads same step t q c) alphabet) t.state_list
            (λ q j.
              All_of (λ c. Leads same step t q c) alphabet
                (λ c k.
                  let found = all_found q0 t g done q j c k in
                  let (e, there, new) =
                    lookup-In same step alphabet us u t.transitions q (step q c) c found in
                  (found, subst (λ r. In r t.state_list) new (g.sound.steps e there).1))),
      )
