-- ===== src/Fdd/Leaves.antt =====
-- lib/path.py, FDDTranslator.merge: what all leaves of two diagrams have, those of the merged one
-- have.
use pyretic.Base.{
  ℕ, zero, suc, Bool, true, false, ◌&&◌, not, none, some, List, Option-cases, Bool-cases, inl, inr,
  if◌then◌else◌, Eq, OnSome, set_union, set_inter,
}
use pyretic.Fdd.{
  Fdd, node, leaf, Fmap, set_entry, refine, make_node, Merged, Rec, both_children, descend, split,
  merge_step, merge, ◌>>=◌,
}

-- Every leaf has the property.
abbrev pub Leaves : {K V : Type 0} → (List ℕ → Type 0) → Fdd K V → Type 0
Leaves P (leaf s) = P s
Leaves P (node k v l r) = Leaves P l × Leaves P r

module _ {K V : Type 0} ⦃ek : Eq K⦄ ⦃ev : Eq V⦄ (P : List ℕ → Type 0) where
  abbrev LeavesOf : Merged K V → Type 0
  LeavesOf result = OnSome (λ x. Leaves P x.0) result

  LeavesOf-bind :
      (o : Merged K V) (f : Fdd K V × Fmap K V → Merged K V)
      → LeavesOf o
      → ((x : Fdd K V × Fmap K V) → Leaves P x.0 → LeavesOf (f x))
      → LeavesOf (o >>= f)
  LeavesOf-bind none f h g = tt
  LeavesOf-bind (some x) f h g = g x h

  refine-Leaves : (d : Fdd K V) (fmap : Fmap K V) → Leaves P d → Leaves P (refine d fmap)
  unfolding refine
  refine-Leaves (leaf s) fmap h = h
  refine-Leaves (node k v l r) fmap h = elim (Option-cases (fmap k)) [
    | inl e ↦ rw (e, refine) h
    | inr (w, e) ↦
        rw (e, refine)
          (elim (Bool-cases (ev.eq w v)) [
            | inl t ↦ rw t (refine-Leaves l fmap h.0)
            | inr t ↦ rw t (refine-Leaves r fmap h.1)
          ])
  ]

  if-Leaves : (b : Bool) (d e : Fdd K V) → Leaves P d → Leaves P e → Leaves P (if b then d else e)
  if-Leaves true d e hd he = hd
  if-Leaves false d e hd he = he

  make_node-Leaves :
      (k : K) (v : V) (l r : Fdd K V) → Leaves P l → Leaves P r → Leaves P (make_node k v l r)
  unfolding make_node
  make_node-Leaves k v l r hl hr = if-Leaves _ l (node k v l r) hl (hl, hr)

  abbrev Keeps : Rec K V → Type 0
  Keeps rec = (a b : Fdd K V) (fmap : Fmap K V) → Leaves P a → Leaves P b → LeavesOf (rec a b fmap)

  both_children-Leaves :
      (rec : Rec K V) (k : K) (v : V) (l r d : Fdd K V) (fmap : Fmap K V)
      → Keeps rec
      → Leaves P (node k v l r)
      → Leaves P d
      → LeavesOf (both_children rec k v l r d fmap)
  unfolding both_children
  both_children-Leaves rec k v l r d fmap keeps h hd =
      LeavesOf-bind (rec l d fmap) _ (keeps l d fmap h.0 hd) (λ x hx.
        LeavesOf-bind (rec r d x.1) _ (keeps r d x.1 h.1 hd)
          (λ y hy. make_node-Leaves k v x.0 y.0 hx hy))

  descend-Leaves :
      (rec : Rec K V) (k : K) (v : V) (l1 l2 r1 r2 : Fdd K V) (fmap : Fmap K V)
      → Keeps rec
      → Leaves P l1
      → Leaves P l2
      → Leaves P r1
      → Leaves P r2
      → LeavesOf (descend rec k v l1 l2 r1 r2 fmap)
  unfolding descend
  descend-Leaves rec k v l1 l2 r1 r2 fmap keeps h1 h2 h3 h4 =
      LeavesOf-bind (rec l1 l2 (set_entry fmap k (some v))) _ (keeps l1 l2 _ h1 h2) (λ x hx.
        LeavesOf-bind (rec r1 r2 _) _ (keeps r1 r2 _ h3 h4)
          (λ y hy. make_node-Leaves k v x.0 y.0 hx hy))

  module _ (greater : K → V → K → V → Bool) (u : Bool)
      (joins : (s t : List ℕ) → P s → P t → P (if u then set_union s t else set_inter s t)) where
    split-Leaves :
        (rec : Rec K V) (k1 : K) (v1 : V) (l1 r1 : Fdd K V) (k2 : K) (v2 : V) (l2 r2 : Fdd K V)
        (fmap : Fmap K V)
        → Keeps rec
        → Leaves P (node k1 v1 l1 r1)
        → Leaves P (node k2 v2 l2 r2)
        → LeavesOf (split greater u rec k1 v1 l1 r1 k2 v2 l2 r2 fmap)
    unfolding split
    split-Leaves rec k1 v1 l1 r1 k2 v2 l2 r2 fmap keeps h1 h2 =
        descend-Leaves rec k1 v1 l1 _ r1 (node k2 v2 l2 r2) fmap keeps h1.0
          (if-Leaves (ek.eq k1 k2 && not (ev.eq v1 v2)) r2 (node k2 v2 l2 r2) h2.1 h2) h1.1 h2

    merge_step-Leaves : (rec : Rec K V) → Keeps rec → Keeps (merge_step greater u rec)
    unfolding merge_step
    merge_step-Leaves rec keeps (leaf s) (leaf t) fmap h1 h2 = joins s t h1 h2
    merge_step-Leaves rec keeps (node k v l r) (leaf t) fmap h1 h2 =
        both_children-Leaves rec k v l r (leaf t) fmap keeps h1 h2
    merge_step-Leaves rec keeps (leaf s) (node k v l r) fmap h1 h2 =
        both_children-Leaves rec k v l r (leaf s) fmap keeps h2 h1
    merge_step-Leaves rec keeps (node k1 v1 l1 r1) (node k2 v2 l2 r2) fmap h1 h2 =
        elim (Bool-cases (ek.eq k1 k2 && ev.eq v1 v2)) [
          | inl e ↦ rw e (descend-Leaves rec k1 v1 l1 l2 r1 r2 fmap keeps h1.0 h2.0 h1.1 h2.1)
          | inr e ↦ rw e (elim (Bool-cases (greater k1 v1 k2 v2)) [
            | inl g ↦ rw g (split-Leaves rec k2 v2 l2 r2 k1 v1 l1 r1 fmap keeps h2 h1)
            | inr g ↦ rw g (split-Leaves rec k1 v1 l1 r1 k2 v2 l2 r2 fmap keeps h1 h2)
          ])
        ]

    -- A property of sets that joining two sets keeps holds at all leaves of the merged diagram.
    pub merge-Leaves :
        (n : ℕ) (a b : Fdd K V) (fmap : Fmap K V)
        → Leaves P a
        → Leaves P b
        → OnSome (λ x. Leaves P x.0) (merge greater u n a b fmap)
    unfolding merge
    merge-Leaves zero a b fmap ha hb = tt
    merge-Leaves (suc n) a b fmap ha hb =
        merge_step-Leaves (merge greater u n) (merge-Leaves n) (refine a fmap) (refine b fmap) fmap
          (refine-Leaves a fmap ha) (refine-Leaves b fmap hb)
