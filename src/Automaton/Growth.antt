-- ===== src/Automaton/Growth.antt =====
-- lib/re.py, the tables of an automaton: what adding transitions and states keeps.
use pyretic.Base.{
  ℕ, ◌≤◌, ◌==◌, ==_iff, Bool, true, ◌&&◌, Option, some, List, [], ◌∷◌, ◌++◌, ◌≡◌, ◌⊎◌, refl, sym,
  ◌∙◌, ap, arith, inl, inr, In, Bool-cases, Option-cases, some_inj, none≢some, and-true,
}
use pyretic.Automaton.{
  Transition, Tables, contains_state, lookup_state_symbol, agrees, add_transition,
}
use pyretic.Automaton.Misses.{misses}

module _ {S : Type 0} (same : S → S → Bool) (step : S → ℕ → S) (alphabet : List ℕ) where
  -- A finite set of states that has all that the symbols lead to, and whose states == tells apart.
  pub record Universe (us : List S) : Type 0 where
    pub closed : (q : S) (c : ℕ) → In q us → In c alphabet → In (step q c) us
    pub apart : (q r : S) → In q us → In r us → same q r ≡ true → q ≡ r
    pub reflexive : (q : S) → same q q ≡ true

  module _ (us : List S) (u : Universe us) where
    -- All states are in the set, and all transitions are what `step` says, to states of the table.
    pub record IsSound (t : Tables S) : Type 0 where
      pub states : (q : S) → In q t.state_list → In q us
      pub sources : (e : Transition S) → In e t.transitions → In e.state us
      pub steps :
          (e : Transition S)
          → In e t.transitions
          → (e.new_state ≡ step e.state e.symbol) × In e.new_state t.state_list

    -- The transition is in the table.
    abbrev pub Has : Tables S → S → ℕ → Type 0
    Has t q c = lookup_state_symbol same t.transitions q c ≡ some (step q c)

    abbrev pub Complete : Tables S → S → Type 0
    Complete t q = (c : ℕ) → In c alphabet → Has t q c

    abbrev pub unseen : Tables S → ℕ
    unseen t = misses (λ q. contains_state same q t.state_list) us

    pub record Grows (t t' : Tables S) : Type 0 where
      pub sound : IsSound t'
      pub kept : (q : S) → In q t.state_list → In q t'.state_list
      pub has : (q : S) (c : ℕ) → In q us → Has t q c → Has t' q c
      pub fewer : unseen t' ≤ unseen t
      pub complete : (q : S) → In q t'.state_list → In q t.state_list ⊎ Complete t' q

    pub Complete-Grows :
        (t t' : Tables S) (q : S) → In q us → Grows t t' → Complete t q → Complete t' q
    Complete-Grows t t' q i g h c j = g.has q c i (h c j)

    pub Grows-trans : (t t1 t2 : Tables S) → Grows t t1 → Grows t1 t2 → IsSound t1 → Grows t t2
    Grows-trans t t1 t2 g h s1 = record {
      sound = h.sound;
      kept = λ q i. h.kept q (g.kept q i);
      has = λ q c i k. h.has q c i (g.has q c i k);
      fewer = omega (arith, g.fewer, h.fewer);
      complete = λ q i. elim (h.complete q i) [
        | inr done ↦ inr done
        | inl before ↦ elim (g.complete q before) [
          | inl first ↦ inl first
          | inr done ↦ inr (Complete-Grows t1 t2 q (s1.states q before) h done)
        ]
      ];
    }

    pub contains-In : (q : S) (states : List S) → In q states → contains_state same q states ≡ true
    unfolding contains_state
    contains-In q [] i = absurd i
    contains-In q (s ∷ states) (inl e) =
        let k : same s q ≡ true = rw e (u.reflexive s) in ground arith
    contains-In q (s ∷ states) (inr i) = ground (arith, contains-In q states i)

    pub In-contains :
        (q : S) (states : List S)
        → ((s : S) → In s states → In s us)
        → In q us
        → contains_state same q states ≡ true
        → In q states
    unfolding contains_state
    In-contains q [] h i k = absurd (ground arith)
    In-contains q (s ∷ states) h i k = elim (Bool-cases (same s q)) [
      | inl e ↦ inl (sym (u.apart s q (h s (inl refl)) i e))
      | inr e ↦ inr (In-contains q states (λ r j. h r (inr j)) i (rw e at k))
    ]

    -- Looking up finds what `step` says, or nothing.
    lookup_sound :
        (es : List (Transition S)) (q x : S) (c : ℕ)
        → In q us
        → ((e : Transition S) → In e es → In e.state us)
        → ((e : Transition S) → In e es → e.new_state ≡ step e.state e.symbol)
        → lookup_state_symbol same es q c ≡ some x
        → x ≡ step q c
    unfolding lookup_state_symbol
    lookup_sound [] q x c i h k e = absurd (none≢some e)
    lookup_sound (d ∷ es) q x c i h k e = elim (Bool-cases (same d.state q && d.symbol == c)) [
      | inl t ↦
          let (hs, hc) = (and-true (same d.state q) (d.symbol == c)).0 t in
          let states : d.state ≡ q = u.apart d.state q (h d (inl refl)) i hs in
          let symbols : d.symbol ≡ c = (==_iff d.symbol c).0 hc in
          some_inj (sym (rw t at e))
          ∙ k d (inl refl)
          ∙ ap (λ s. step s d.symbol) states
          ∙ ap (step q) symbols
      | inr t ↦ lookup_sound es q x c i (λ e' j. h e' (inr j)) (λ e' j. k e' (inr j)) (rw t at e)
    ]

    pub record Added (t : Tables S) (q : S) (c : ℕ) (result : Option (Tables S)) : Type 0 where
      pub after : Tables S
      pub is_result : result ≡ some after
      pub grows : Grows t after
      pub found : Has after q c

    lookup_agrees :
        (t : Tables S) (q : S) (c : ℕ)
        → IsSound t
        → In q us
        → agrees same (lookup_state_symbol same t.transitions q c) (step q c) ≡ true
    lookup_agrees t q c s i = elim (Option-cases (lookup_state_symbol same t.transitions q c)) [
      | inl e ↦ rw e refl
      | inr (x, e) ↦
          let right = lookup_sound t.transitions q x c i s.sources (λ d j. (s.steps d j).0) e in
          rw (e, right) (u.reflexive (step q c))
    ]

    abbrev entry : S → ℕ → Transition S
    entry q c = record { state = q; symbol = c; new_state = step q c }

    abbrev with_entry : S → ℕ → Tables S → Tables S
    with_entry q c t = record t { transitions = entry q c ∷ t.transitions }

    has_entry :
        (t : Tables S) (q : S) (c : ℕ) (r : S) (d : ℕ)
        → In q us
        → In r us
        → Has t r d ⊎ ((q ≡ r) × (c ≡ d))
        → Has (with_entry q c t) r d
    unfolding lookup_state_symbol
    has_entry t q c r d i j h = elim (Bool-cases (same q r && c == d)) [
      | inl e ↦
          let (hs, hc) = (and-true (same q r) (c == d)).0 e in
          rw e (rw (u.apart q r i j hs, (==_iff c d).0 hc) refl)
      | inr e ↦ elim h [
        | inl before ↦ rw e before
        | inr (hq, hc) ↦
            let t1 : same q r ≡ true = rw (← hq) (u.reflexive q) in
            let t2 : (c == d) ≡ true = (==_iff c d).1 hc in absurd (ground arith)
      ]
    ]

    pub add_transition-Added :
        (t : Tables S) (q : S) (c : ℕ)
        → IsSound t
        → In q us
        → In (step q c) t.state_list
        → Added t q c (add_transition same q c (step q c) t)
    unfolding add_transition
    add_transition-Added t q c s i j = record {
      after = with_entry q c t;
      is_result = rw (lookup_agrees t q c s i) refl;
      grows = record {
        sound = record {
          states = s.states;
          sources = λ e. elim [ inl k ↦ rw k i | inr k ↦ s.sources e k ];
          steps = λ e. elim [ inl k ↦ rw k (refl, j) | inr k ↦ s.steps e k ];
        };
        kept = λ r k. k;
        has = λ r d k h. has_entry t q c r d i k (inl h);
        fewer = omega arith;
        complete = λ r k. inl k;
      };
      found = has_entry t q c q c i i (inr (refl, refl));
    }

    pub lookup-In :
        (es : List (Transition S)) (q x : S) (c : ℕ)
        → lookup_state_symbol same es q c ≡ some x
        → (e : Transition S) × In e es × (e.new_state ≡ x)
    unfolding lookup_state_symbol
    lookup-In [] q x c h = absurd (none≢some h)
    lookup-In (d ∷ es) q x c h = elim (Bool-cases (same d.state q && d.symbol == c)) [
      | inl t ↦ (d, inl refl, some_inj (rw t at h))
      | inr t ↦ let (e, i, k) = lookup-In es q x c (rw t at h) in (e, inr i, k)
    ]

    abbrev pub with_state : S → Tables S → Tables S
    with_state q t = record t { state_list = t.state_list ++ q ∷ [] }

    pub contains-more :
        (r q : S) (states : List S)
        → contains_state same r states ≡ true
        → contains_state same r (states ++ q ∷ []) ≡ true
    unfolding contains_state
    contains-more r q [] h = absurd (ground arith)
    contains-more r q (s ∷ states) h = ground (arith, contains-more r q states)

    pub Grows-refl : (t : Tables S) → IsSound t → Grows t t
    Grows-refl t s = record {
      sound = s;
      kept = λ q i. i;
      has = λ q c i h. h;
      fewer = omega arith;
      complete = λ q i. inl i;
    }
