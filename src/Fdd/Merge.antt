-- ===== src/Fdd/Merge.antt =====
-- lib/path.py, FDDTranslator.merge: it ends, restores the dictionary, and joins the two diagrams.
use pyretic.Base.{
  ℕ, zero, suc, ◌+◌, ◌<◌, ◌≤◌, Bool, true, false, ◌&&◌, ◌||◌, not, some, List, ◌≡◌, refl, sym, ◌∙◌,
  ap, fun_ext, arith, Bool-cases, Option-cases, inl, inr, and-true, if◌then◌else◌, Eq, has,
  set_union, set_inter, has-set_union, has-set_inter, set_eq-has,
}
use pyretic.Fdd.{
  Fdd, node, leaf, fdd_eq, Fmap, set_entry, fmap_digest, revert_fmap, refine, make_node, Merged,
  Rec, both_children, descend, split, merge_step, merge,
}

-- What both diagrams say of a predicate, joined.
abbrev pub joined : Bool → Bool → Bool → Bool
joined is_union a b = if is_union then a || b else a && b

joined_comm : (u a b : Bool) → joined u a b ≡ joined u b a
joined_comm u a b = ground arith

module _ {K V : Type 0} ⦃ek : Eq K⦄ ⦃ev : Eq V⦄ where
  -- The predicates at the leaf that the values `look` lead to.
  unfoldable pub reach : (K → V) → Fdd K V → List ℕ
  reach look (leaf s) = s
  reach look (node k v l r) = if ev.eq (look k) v then reach look l else reach look r

  unfoldable pub size : Fdd K V → ℕ
  size (leaf s) = 0
  size (node k v l r) = suc (size l + size r)

  -- The entries of the dictionary are the values that the keys have.
  abbrev pub Agrees : (K → V) → Fmap K V → Type 0
  Agrees look fmap = (k : K) (v : V) → fmap k ≡ some v → look k ≡ v

  size-refine : (d : Fdd K V) (fmap : Fmap K V) → size (refine d fmap) ≤ size d
  unfolding size refine
  size-refine (leaf s) fmap = omega arith
  size-refine (node k v l r) fmap = ground (arith, size-refine l fmap, size-refine r fmap)

  reach-refine :
      (look : K → V) (d : Fdd K V) (fmap : Fmap K V)
      → Agrees look fmap
      → reach look (refine d fmap) ≡ reach look d
  unfolding reach refine
  reach-refine look (leaf s) fmap h = refl
  reach-refine look (node k v l r) fmap h = elim (Option-cases (fmap k)) [
    | inl e ↦ ground arith
    | inr (w, e) ↦
        let found : look k ≡ w = h k w e in
        ground (arith, reach-refine look l fmap h, reach-refine look r fmap h)
  ]

  fdd_eq-reach :
      (look : K → V) (a b : Fdd K V) (p : ℕ)
      → fdd_eq a b ≡ true
      → has p (reach look a) ≡ has p (reach look b)
  unfolding reach fdd_eq
  fdd_eq-reach look (leaf s) (leaf t) p h = set_eq-has p s t h
  fdd_eq-reach look (node k v l r) (node k' v' l' r') p h =
      let (tests, children) =
        (and-true (ek.eq k k' && ev.eq v v') (fdd_eq l l' && fdd_eq r r')).0 h in
      let (hk, hv) = (and-true (ek.eq k k') (ev.eq v v')).0 tests in
      let (hl, hr) = (and-true (fdd_eq l l') (fdd_eq r r')).0 children in
      let same : (if ev.eq (look k) v then reach look l else reach look r)
          ≡ (if ev.eq (look k') v' then reach look l else reach look r) =
        rw ((ek.eq_iff k k').0 hk, (ev.eq_iff v v').0 hv) in
      ap (has p) same ∙ elim (Bool-cases (ev.eq (look k') v')) [
        | inl e ↦ rw e (fdd_eq-reach look l l' p hl)
        | inr e ↦ rw e (fdd_eq-reach look r r' p hr)
      ]
  fdd_eq-reach look (leaf s) (node k v l r) p h = ground arith
  fdd_eq-reach look (node k v l r) (leaf t) p h = ground arith

  make_node-reach :
      (look : K → V) (k : K) (v : V) (l r : Fdd K V) (p : ℕ)
      → has p (reach look (make_node k v l r))
        ≡ (if ev.eq (look k) v then has p (reach look l) else has p (reach look r))
  unfolding reach make_node
  make_node-reach look k v l r p = ground (arith, fdd_eq-reach look r l p)

  restored :
      (fmap : Fmap K V) (k : K) (v : V)
      → revert_fmap (set_entry fmap k (some v)) k (fmap_digest fmap k) ≡ fmap
  unfolding revert_fmap fmap_digest
  restored fmap k v = fun_ext (λ j. elim (Bool-cases (ek.eq k j)) [
    | inl e ↦ rw e (ap fmap ((ek.eq_iff k j).0 e))
    | inr e ↦ rw e
  ])

  Agrees-set_entry :
      (look : K → V) (fmap : Fmap K V) (k : K) (v : V)
      → Agrees look fmap
      → look k ≡ v
      → Agrees look (set_entry fmap k (some v))
  Agrees-set_entry look fmap k v h e j w entry = elim (Bool-cases (ek.eq k j)) [
    | inl t ↦
        let same : k ≡ j = (ek.eq_iff k j).0 t in
        let value : v ≡ w = ground arith in ap look (sym same) ∙ e ∙ value
    | inr t ↦ h j w (rw t at entry)
  ]

  -- The diagram returned joins the two, and the dictionary is the one that was passed.
  pub record Joins (is_union : Bool) (a b : Fdd K V) (fmap : Fmap K V) (result : Merged K V)
      : Type 0 where
    pub merged : Fdd K V
    pub is_result : result ≡ some (merged, fmap)
    pub says :
        (look : K → V) (p : ℕ)
        → Agrees look fmap
        → has p (reach look merged) ≡ joined is_union (has p (reach look a)) (has p (reach look b))

  -- The recursive calls join smaller diagrams.
  abbrev JoinsBelow : Bool → ℕ → Rec K V → Type 0
  JoinsBelow is_union n rec =
      (a b : Fdd K V) (fmap : Fmap K V)
      → size a + size b < n
      → Joins is_union a b fmap (rec a b fmap)

  both_children-Joins :
      (u : Bool) (n : ℕ) (rec : Rec K V) (k : K) (v : V) (l r d : Fdd K V) (fmap : Fmap K V)
      → JoinsBelow u n rec
      → size (node k v l r) + size d < suc n
      → Joins u (node k v l r) d fmap (both_children rec k v l r d fmap)
  unfolding both_children size reach
  both_children-Joins u n rec k v l r d fmap ih h =
      let left = ih l d fmap (omega arith) in
      let right = ih r d fmap (omega arith) in
      record {
        merged = make_node k v left.merged right.merged;
        is_result = rw (left.is_result, right.is_result) refl;
        says = λ look p agrees.
            let lp = left.says look p agrees in
            let rp = right.says look p agrees in
            make_node-reach look k v left.merged right.merged p
            ∙ elim (Bool-cases (ev.eq (look k) v)) [ inl e ↦ rw e lp | inr e ↦ rw e rp ];
      }

  descend-Joins :
      (u : Bool) (n : ℕ) (rec : Rec K V) (k : K) (v : V) (l1 l2 r1 r2 a b : Fdd K V)
      (fmap : Fmap K V)
      → JoinsBelow u n rec
      → size l1 + size l2 < n
      → size r1 + size r2 < n
      → ((look : K → V)
          → reach look a ≡ (if ev.eq (look k) v then reach look l1 else reach look r1))
      → ((look : K → V)
          → reach look b ≡ (if ev.eq (look k) v then reach look l2 else reach look r2))
      → Joins u a b fmap (descend rec k v l1 l2 r1 r2 fmap)
  unfolding descend
  descend-Joins u n rec k v l1 l2 r1 r2 a b fmap ih hl hr ha hb =
      let left = ih l1 l2 (set_entry fmap k (some v)) hl in
      let right = ih r1 r2 fmap hr in
      record {
        merged = make_node k v left.merged right.merged;
        is_result = rw (left.is_result, restored fmap k v, right.is_result) refl;
        says = λ look p agrees.
            make_node-reach look k v left.merged right.merged p
            ∙ elim (Bool-cases (ev.eq (look k) v)) [
              | inl e ↦
                  let found = Agrees-set_entry look fmap k v agrees ((ev.eq_iff (look k) v).0 e) in
                  rw (ha look, hb look, e) (left.says look p found)
              | inr e ↦ rw (ha look, hb look, e) (right.says look p agrees)
            ];
      }

  module _ (greater : K → V → K → V → Bool) (u : Bool) where
    -- The other test has the same key and another value: it fails where this one holds.
    other_value :
        (look : K → V) (k1 : K) (v1 : V) (k2 : K) (v2 : V) (l2 r2 : Fdd K V)
        → (ek.eq k1 k2 && ev.eq v1 v2) ≡ false
        → reach look (node k2 v2 l2 r2) ≡ (
            if ev.eq (look k1) v1
            then reach look (if ek.eq k1 k2 && not (ev.eq v1 v2) then r2 else node k2 v2 l2 r2)
            else reach look (node k2 v2 l2 r2))
    unfolding reach
    other_value look k1 v1 k2 v2 l2 r2 h = elim (Bool-cases (ek.eq k1 k2)) [
      | inl same ↦
          let keys : k1 ≡ k2 = (ek.eq_iff k1 k2).0 same in
          elim (Bool-cases (ev.eq (look k1) v1)) [
            | inl e ↦
                let diff : ev.eq v1 v2 ≡ false = ground arith in
                let fails : ev.eq (look k2) v2 ≡ false =
                  rw (sym keys, (ev.eq_iff (look k1) v1).0 e) diff in
                rw (same, e, diff, fails) refl
            | inr e ↦ ground arith
          ]
      | inr other ↦ rw other (ground arith)
    ]

    same_test :
        (k1 : K) (v1 : V) (k2 : K) (v2 : V) (l2 r2 : Fdd K V)
        → (ek.eq k1 k2 && ev.eq v1 v2) ≡ true
        → (look : K → V)
        → reach look (node k2 v2 l2 r2)
          ≡ (if ev.eq (look k1) v1 then reach look l2 else reach look r2)
    unfolding reach
    same_test k1 v1 k2 v2 l2 r2 h look =
        let (hk, hv) = (and-true (ek.eq k1 k2) (ev.eq v1 v2)).0 h in
        rw ((ek.eq_iff k1 k2).0 hk, (ev.eq_iff v1 v2).0 hv) refl

    different_comm :
        (k1 : K) (v1 : V) (k2 : K) (v2 : V)
        → (ek.eq k1 k2 && ev.eq v1 v2) ≡ false
        → (ek.eq k2 k1 && ev.eq v2 v1) ≡ false
    different_comm k1 v1 k2 v2 h = elim (Bool-cases (ek.eq k2 k1 && ev.eq v2 v1)) [
      | inl e ↦
          let (hk, hv) = (and-true (ek.eq k2 k1) (ev.eq v2 v1)).0 e in
          let k : ek.eq k1 k2 ≡ true = (ek.eq_iff k1 k2).1 (sym ((ek.eq_iff k2 k1).0 hk)) in
          let v : ev.eq v1 v2 ≡ true = (ev.eq_iff v1 v2).1 (sym ((ev.eq_iff v2 v1).0 hv)) in
          absurd (ground arith)
      | inr e ↦ e
    ]

    smaller :
        (k1 : K) (v1 : V) (k2 : K) (v2 : V) (l1 l2 r2 : Fdd K V) {n : ℕ}
        → size l1 + size (node k2 v2 l2 r2) < n
        → size l1 + size (if ek.eq k1 k2 && not (ev.eq v1 v2) then r2 else node k2 v2 l2 r2) < n
    unfolding size
    smaller k1 v1 k2 v2 l1 l2 r2 h = ground arith

    split-Joins :
        (n : ℕ) (rec : Rec K V) (k1 : K) (v1 : V) (l1 r1 : Fdd K V) (k2 : K) (v2 : V)
        (l2 r2 : Fdd K V) (fmap : Fmap K V)
        → JoinsBelow u n rec
        → size (node k1 v1 l1 r1) + size (node k2 v2 l2 r2) < suc n
        → (ek.eq k1 k2 && ev.eq v1 v2) ≡ false
        → Joins u
            (node k1 v1 l1 r1)
            (node k2 v2 l2 r2)
            fmap
            (split greater u rec k1 v1 l1 r1 k2 v2 l2 r2 fmap)
    unfolding split size reach
    split-Joins n rec k1 v1 l1 r1 k2 v2 l2 r2 fmap ih h different =
        descend-Joins u n rec k1 v1 l1
          (if ek.eq k1 k2 && not (ev.eq v1 v2) then r2 else node k2 v2 l2 r2) r1 (node k2 v2 l2 r2)
          (node k1 v1 l1 r1) (node k2 v2 l2 r2) fmap ih (smaller k1 v1 k2 v2 l1 l2 r2 (omega arith))
          (omega arith) (λ look. refl) (λ look. other_value look k1 v1 k2 v2 l2 r2 different)

    swapped :
        (a b : Fdd K V) (fmap : Fmap K V) (result : Merged K V)
        → Joins u b a fmap result
        → Joins u a b fmap result
    swapped a b fmap result j = record {
      merged = j.merged;
      is_result = j.is_result;
      says = λ look p agrees.
          j.says look p agrees ∙ joined_comm u (has p (reach look b)) (has p (reach look a));
    }

    merge_step-Joins :
        (n : ℕ) (rec : Rec K V) (a b : Fdd K V) (fmap : Fmap K V)
        → JoinsBelow u n rec
        → size a + size b < suc n
        → Joins u a b fmap (merge_step greater u rec a b fmap)
    unfolding merge_step size reach
    merge_step-Joins n rec (leaf s) (leaf t) fmap ih h = record {
      merged = leaf (if u then set_union s t else set_inter s t);
      is_result = refl;
      says = λ look p agrees. ground (arith, has-set_union p s t, has-set_inter p s t);
    }
    merge_step-Joins n rec (node k v l r) (leaf t) fmap ih h =
        both_children-Joins u n rec k v l r (leaf t) fmap ih h
    merge_step-Joins n rec (leaf s) (node k v l r) fmap ih h =
        swapped (leaf s) (node k v l r) fmap (both_children rec k v l r (leaf s) fmap)
          (both_children-Joins u n rec k v l r (leaf s) fmap ih (omega arith))
    merge_step-Joins n rec (node k1 v1 l1 r1) (node k2 v2 l2 r2) fmap ih h =
        elim (Bool-cases (ek.eq k1 k2 && ev.eq v1 v2)) [
          | inl e ↦ rw e (
              descend-Joins u n rec k1 v1 l1 l2 r1 r2 (node k1 v1 l1 r1) (node k2 v2 l2 r2) fmap ih
                (omega arith) (omega arith) (λ look. refl) (same_test k1 v1 k2 v2 l2 r2 e))
          | inr e ↦ rw e (elim (Bool-cases (greater k1 v1 k2 v2)) [
            | inl g ↦ rw g (
                swapped (node k1 v1 l1 r1) (node k2 v2 l2 r2) fmap
                  (split greater u rec k2 v2 l2 r2 k1 v1 l1 r1 fmap)
                  (split-Joins n rec k2 v2 l2 r2 k1 v1 l1 r1 fmap ih (omega arith)
                    (different_comm k1 v1 k2 v2 e)))
            | inr g ↦ rw g (split-Joins n rec k1 v1 l1 r1 k2 v2 l2 r2 fmap ih h e)
          ])
        ]

    -- With more fuel than the two diagrams have nodes, merge returns a diagram, and leaves the
    -- dictionary as it was; for values that agree with the dictionary, a predicate is at the leaf
    -- that the diagram leads to just when it is at both of the leaves that the two lead to, or at one
    -- of them if they are united.
    pub merge-Joins :
        (n : ℕ) (a b : Fdd K V) (fmap : Fmap K V)
        → size a + size b < n
        → Joins u a b fmap (merge greater u n a b fmap)
    unfolding merge
    merge-Joins zero a b fmap h = absurd (omega arith)
    merge-Joins (suc n) a b fmap h =
        let j =
          merge_step-Joins n (merge greater u n) (refine a fmap) (refine b fmap) fmap
            (merge-Joins n) (ground (arith, size-refine a fmap, size-refine b fmap, h)) in
        record {
          merged = j.merged;
          is_result = j.is_result;
          says = λ look p agrees.
              rw (sym (reach-refine look a fmap agrees), sym (reach-refine look b fmap agrees))
                (j.says look p agrees);
        }
