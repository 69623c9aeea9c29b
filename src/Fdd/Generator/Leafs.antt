-- ===== src/Fdd/Generator/Leafs.antt =====
-- lib/path.py, fdd_re_tree_gen.prep_re_tree: the leaves of each predicate.
use pyretic.Base.{
  ℕ, ◌<◌, ◌==◌, ==_iff, true, Option, none, some, List, [], ◌∷◌, ◌≡◌, ◌↔◌, ◌⊎◌, refl, sym, ◌∙◌, ap,
  arith, inl, inr, if◌then◌else◌, Eq, has, All, In, In-append, Bool-cases, map, length, nat_eq,
  some_inj, true≢false,
}
use pyretic.Fdd.Generator.{
  get_entry, push_at, Character, Leafs, Prepared, push_leaf, cons_left, prep_leaves,
}
use pyretic.Fdd.Generator.Symbols.{Room, new_symbol-Fresh}

-- The symbols grow from leaf to leaf, and the leaves without a symbol have no predicates.
abbrev pub Growing : ℕ → List Character → Type 0
Growing token [] = Unit
Growing token (c ∷ cs) = elim c.sym [
  | none ↦ (c.pred_set ≡ []) × Growing token cs
  | some s ↦ (token < s) × Growing s cs
]

-- One more leaf, `E`, beside the leaves `I`.
more_leaves :
    {A M L I E N N' : Type 0}
    → A ↔ (M ⊎ (I × N'))
    → M ↔ (L ⊎ (E × N))
    → (E → N ↔ N')
    → A ↔ (L ⊎ ((E ⊎ I) × N'))
more_leaves h k f = (
  λ a. elim (h.0 a) [
    | inl m ↦ elim (k.0 m) [ inl l ↦ inl l | inr (e, n) ↦ inr (inl e, (f e).0 n) ]
    | inr (i, n) ↦ inr (inr i, n)
  ],
  elim [
    | inl l ↦ h.1 (inl (k.1 (inl l)))
    | inr (inl e, n) ↦ h.1 (inl (k.1 (inr (e, (f e).1 n))))
    | inr (inr i, n) ↦ h.1 (inr (i, n))
  ],
)

module _ {P : Type 0} ⦃ep : Eq P⦄ where
  -- What pred_to_leafs has for the predicate.
  abbrev pub members : P → Leafs P → List Character
  members p [] = []
  members p (x ∷ xs) = if ep.eq p x.0 then x.1 else members p xs

  In-push_at :
      (q p : P) (c c' : Character) (l : Leafs P)
      → In c' (members q (push_at p c l)) ↔ (In c' (members q l) ⊎ ((c' ≡ c) × (q ≡ p)))
  unfolding push_at
  In-push_at q p c c' [] = ground (arith, ep.eq_iff q p)
  In-push_at q p c c' (x ∷ xs) = ground (
    arith,
    ep.eq_iff p x.0,
    ep.eq_iff q x.0,
    ep.eq_iff q p,
    In-append c' x.1 (c ∷ []),
    In-push_at q p c c' xs,
  )

  -- One of the numbers in the set is that of the predicate.
  abbrev pub Names : List (ℕ × P) → List ℕ → P → Type 0
  Names preds ns p = (n : ℕ) × (has n ns ≡ true) × (get_entry n preds ≡ some p)

  Names-nothing : (preds : List (ℕ × P)) (p : P) → ¬ Names preds [] p
  Names-nothing preds p (n, h, k) = true≢false (sym h)

  Names-same :
      (preds : List (ℕ × P)) (p : P) (ns : List ℕ) (c : Character) {s : Option ℕ}
      → c ≡ record { pred_set = ns; sym = s }
      → Names preds ns p ↔ Names preds c.pred_set p
  Names-same preds p ns c e = rw e (λ h. h, λ h. h)

  abbrev HasName : List (ℕ × P) → ℕ → Type 0
  HasName preds n = (p : P) × (get_entry n preds ≡ some p)

  abbrev Pushed : List (ℕ × P) → Character → List ℕ → Leafs P → Option (Leafs P) → Type 0
  Pushed preds c ns leafs result =
      (l : Leafs P) × (result ≡ some l)
      × ((p : P) (c' : Character)
          → In c' (members p l) ↔ (In c' (members p leafs) ⊎ ((c' ≡ c) × Names preds ns p)))

  Names-cons :
      (preds : List (ℕ × P)) (n : ℕ) (ns : List ℕ) (q p : P)
      → get_entry n preds ≡ some q
      → Names preds (n ∷ ns) p ↔ ((p ≡ q) ⊎ Names preds ns p)
  Names-cons preds n ns q p e = (
    λ (m, h, k). elim (Bool-cases (m == n)) [
      | inl t ↦
          inl (sym (some_inj (sym e ∙ ap (λ j. get_entry j preds) (sym ((==_iff m n).0 t)) ∙ k)))
      | inr t ↦ inr (m, ground arith, k)
    ],
    elim [
      | inl same ↦ (n, ground (arith, (==_iff n n).1 refl), rw same e)
      | inr (m, h, k) ↦ (m, ground arith, k)
    ],
  )

  push_leaf-Pushed :
      (preds : List (ℕ × P)) (c : Character) (ns : List ℕ) (leafs : Leafs P)
      → All (HasName preds) ns
      → Pushed preds c ns leafs (push_leaf preds c ns leafs)
  unfolding push_leaf
  push_leaf-Pushed preds c [] leafs h = (
    leafs,
    refl,
    λ p c'. (inl, elim [ inl i ↦ i | inr (e, named) ↦ absurd (Names-nothing preds p named) ]),
  )
  push_leaf-Pushed preds c (n ∷ ns) leafs ((q, e), hs) =
      let (l, is, k) = push_leaf-Pushed preds c ns (push_at q c leafs) hs in
      (
        l,
        rw e is,
        λ p c'. ground (arith, k p c', In-push_at p q c c' leafs, Names-cons preds n ns q p e),
      )

  -- What prep_re_tree makes of the sets at the leaves.
  pub record Labelled (preds : List (ℕ × P)) (token : ℕ) (sets : List (List ℕ)) (leafs : Leafs P)
      (result : Option (Prepared P)) : Type 0 where
    pub prepared : Prepared P
    pub is_result : result ≡ some prepared
    pub sets_kept : map (λ c. c.pred_set) prepared.leaves ≡ sets
    pub increasing : Growing token prepared.leaves
    pub found :
        (p : P) (c : Character)
        → In c (members p prepared.leafs)
          ↔ (In c (members p leafs) ⊎ (In c prepared.leaves × Names preds c.pred_set p))

  pub prep_leaves-Labelled :
      (preds : List (ℕ × P)) (syms : List ℕ) (sets : List (List ℕ)) (token : ℕ) (leafs : Leafs P)
      → All (All (HasName preds)) sets
      → Room token (length sets) syms
      → Labelled preds token sets leafs (prep_leaves preds syms token sets leafs)
  unfolding prep_leaves
  prep_leaves-Labelled preds syms [] token leafs h room = record {
    prepared = record { leaves = []; leafs = leafs; token = token };
    is_result = refl;
    sets_kept = refl;
    increasing = tt;
    found = λ p c. (inl, elim [ inl i ↦ i | inr (k, _) ↦ absurd k ]);
  }
  prep_leaves-Labelled preds syms ([] ∷ sets) token leafs (h, hs) room =
      let r = prep_leaves-Labelled preds syms sets token leafs hs (omega arith) in
      record {
        prepared = cons_left (record { pred_set = []; sym = none }) r.prepared;
        is_result = rw r.is_result refl;
        sets_kept = ap (λ l. [] ∷ l) r.sets_kept;
        increasing = (refl, r.increasing);
        found = λ p c.
            more_leaves (r.found p c)
              (inl, elim [ inl i ↦ i | inr (e, named) ↦ absurd (Names-nothing preds p named) ])
              (Names-same preds p [] c);
      }
  prep_leaves-Labelled preds syms ((n ∷ ns) ∷ sets) token leafs (h, hs) room =
      let f = new_symbol-Fresh syms token (length sets) room in
      let c : Character = record { pred_set = n ∷ ns; sym = some f.new } in
      let (l, is, k) = push_leaf-Pushed preds c (n ∷ ns) leafs h in
      let r = prep_leaves-Labelled preds syms sets f.new l hs f.room in
      record {
        prepared = cons_left c r.prepared;
        is_result = rw (f.is_result, is, r.is_result) refl;
        sets_kept = ap (λ l. (n ∷ ns) ∷ l) r.sets_kept;
        increasing = (f.larger, r.increasing);
        found = λ p c'. more_leaves (r.found p c') (k p c') (Names-same preds p (n ∷ ns) c');
      }
