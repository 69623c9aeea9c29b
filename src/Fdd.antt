-- ===== src/Fdd.antt =====
-- lib/path.py, FDD and FDDTranslator: forwarding decision diagrams and their merge.
pub mod Generator
pub mod Leaves
pub mod Merge
pub mod Negate
pub mod Translate
use pyretic.Base.{
  ℕ, zero, suc, ◌+◌, Bool, true, false, ◌&&◌, not, Option, none, some, List, [], ◌∷◌, ◌++◌, length,
  ltb, if◌then◌else◌, Eq, set_union, set_inter, set_eq,
}

-- A test compares the value of a key, a field, with a constant. A predicate is its identity.
pub data Fdd (K V : Type 0) : Type 0 where
  node : (key : K) (val : V) (lchild rchild : Fdd K V) → Fdd K V
  leaf : (pred_set : List ℕ) → Fdd K V

module _ {K V : Type 0} where
  unfoldable pub get_leaves : Fdd K V → List (List ℕ)
  get_leaves (node k v l r) = get_leaves l ++ get_leaves r
  get_leaves (leaf s) = s ∷ []

  -- Leaf.neg; `none` is the failed assertion
  abbrev pub leaf_neg : List ℕ → ℕ → Option (Fdd K V)
  leaf_neg [] pred = some (leaf (pred ∷ []))
  leaf_neg (p ∷ []) pred = some (leaf [])
  leaf_neg _ pred = none

  abbrev pub join : K → V → Option (Fdd K V) → Option (Fdd K V) → Option (Fdd K V)
  join k v (some l) (some r) = some (node k v l r)
  join k v _ _ = none

  unfoldable pub neg : Fdd K V → ℕ → Option (Fdd K V)
  neg (node k v l r) pred = join k v (neg l pred) (neg r pred)
  neg (leaf s) pred = leaf_neg s pred

-- The dictionary fmap, from fields to the values that the branch so far has found.
abbrev pub Fmap : Type 0 → Type 0 → Type 0
Fmap K V = K → Option V

-- merge changes the dictionary, so it returns the one that it leaves.
abbrev pub Merged : Type 0 → Type 0 → Type 0
Merged K V = Option (Fdd K V × Fmap K V)

abbrev pub Rec : Type 0 → Type 0 → Type 0
Rec K V = Fdd K V → Fdd K V → Fmap K V → Merged K V

module _ {K V : Type 0} ⦃ek : Eq K⦄ ⦃ev : Eq V⦄ where
  -- __eq__ of Node and of Leaf
  unfoldable pub fdd_eq : Fdd K V → Fdd K V → Bool
  fdd_eq (node k v l r) (node k' v' l' r') =
      (ek.eq k k' && ev.eq v v') && (fdd_eq l l' && fdd_eq r r')
  fdd_eq (leaf s) (leaf t) = set_eq s t
  fdd_eq _ _ = false

  abbrev pub set_entry : Fmap K V → K → Option V → Fmap K V
  set_entry fmap k v j = if ek.eq k j then v else fmap j

  -- fmap_digest: the field and the entry that it has, if any
  unfoldable pub fmap_digest : Fmap K V → K → Option V
  fmap_digest fmap k = fmap k

  -- revert_fmap: the entry again, or none
  unfoldable pub revert_fmap : Fmap K V → K → Option V → Fmap K V
  revert_fmap fmap k digest = set_entry fmap k digest

  unfoldable pub refine : Fdd K V → Fmap K V → Fdd K V
  refine (leaf s) fmap = leaf s
  refine (node k v l r) fmap = elim (fmap k) [
    | none ↦ node k v l r
    | some w ↦ if ev.eq w v then refine l fmap else refine r fmap
  ]

  -- The last lines of merge: equal children make the test needless.
  unfoldable pub make_node : K → V → Fdd K V → Fdd K V → Fdd K V
  unfolding fdd_eq
  make_node k v l r = if fdd_eq r l then l else node k v l r

  infixl 5 ◌>>=◌
  abbrev pub ◌>>=◌ : Merged K V → (Fdd K V × Fmap K V → Merged K V) → Merged K V
  none >>= f = none
  some x >>= f = f x

  -- One child after the other.
  unfoldable pub both_children :
      Rec K V → K → V → Fdd K V → Fdd K V → Fdd K V → Fmap K V → Merged K V
  unfolding make_node
  both_children rec k v l r d fmap =
      rec l d fmap >>= λ x. rec r d x.1 >>= λ y. some (make_node k v x.0 y.0, y.1)

  -- The test `k = v` first: the left children under the new entry of the dictionary, the right ones
  -- under the old.
  unfoldable pub descend :
      Rec K V → K → V → Fdd K V → Fdd K V → Fdd K V → Fdd K V → Fmap K V → Merged K V
  unfolding make_node fmap_digest revert_fmap
  descend rec k v l1 l2 r1 r2 fmap =
      let digest = fmap_digest fmap k in
      rec l1 l2 (set_entry fmap k (some v)) >>= λ x.
      rec r1 r2 (revert_fmap x.1 k digest) >>= λ y. some (make_node k v x.0 y.0, y.1)

  -- t1 > t2 on pairs is Python's order on strings and values.
  module _ (greater : K → V → K → V → Bool) (is_union : Bool) where
    -- Two nodes with different tests, the smaller one first.
    unfoldable pub split :
        Rec K V → K → V → Fdd K V → Fdd K V → K → V → Fdd K V → Fdd K V → Fmap K V → Merged K V
    unfolding descend
    split rec k1 v1 l1 r1 k2 v2 l2 r2 fmap =
        descend rec k1 v1 l1 (if ek.eq k1 k2 && not (ev.eq v1 v2) then r2 else node k2 v2 l2 r2) r1
          (node k2 v2 l2 r2) fmap

    -- What merge does with the refined diagrams.
    unfoldable pub merge_step : Rec K V → Rec K V
    unfolding both_children descend split
    merge_step rec (node k1 v1 l1 r1) (node k2 v2 l2 r2) fmap =
        if ek.eq k1 k2 && ev.eq v1 v2
        then descend rec k1 v1 l1 l2 r1 r2 fmap
        else if greater k1 v1 k2 v2
        then split rec k2 v2 l2 r2 k1 v1 l1 r1 fmap
        else split rec k1 v1 l1 r1 k2 v2 l2 r2 fmap
    merge_step rec (node k v l r) (leaf t) fmap = both_children rec k v l r (leaf t) fmap
    merge_step rec (leaf s) (node k v l r) fmap = both_children rec k v l r (leaf s) fmap
    merge_step rec (leaf s) (leaf t) fmap =
        some (leaf (if is_union then set_union s t else set_inter s t), fmap)

    -- merge, on fuel; `none` is that the fuel has run out
    unfoldable pub merge : ℕ → Rec K V
    unfolding merge_step refine
    merge zero d1 d2 fmap = none
    merge (suc n) d1 d2 fmap = merge_step (merge n) (refine d1 fmap) (refine d2 fmap) fmap
