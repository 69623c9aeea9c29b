-- ===== src/Fdd/Negate.antt =====
-- lib/path.py, FDDTranslator.neg: it complements the diagram of one predicate.
use pyretic.Base.{ℕ, ==_iff, not, some, List, [], ◌∷◌, ◌≡◌, refl, arith, ◌⊎◌, inl, inr, has, Eq}
use pyretic.Fdd.{Fdd, node, leaf, neg}
use pyretic.Fdd.Leaves.{Leaves}
use pyretic.Fdd.Merge.{reach}

-- Every leaf is empty or has this predicate only.
abbrev pub AtMost : ℕ → List ℕ → Type 0
AtMost pred s = (s ≡ []) ⊎ (s ≡ pred ∷ [])

abbrev pub Only : {K V : Type 0} → ℕ → Fdd K V → Type 0
Only pred d = Leaves (AtMost pred) d

module _ {K V : Type 0} ⦃ek : Eq K⦄ ⦃ev : Eq V⦄ where
  -- For a diagram of one predicate, neg returns a diagram of that predicate, and for any values of
  -- the fields the predicate is at the leaf that one of the two leads to and not at that of the other.
  pub neg-reach :
      (d : Fdd K V) (pred : ℕ)
      → Only pred d
      → (d' : Fdd K V) × (neg d pred ≡ some d')
        × Only pred d'
        × ((look : K → V) → has pred (reach look d') ≡ not (has pred (reach look d)))
  unfolding neg reach
  neg-reach (leaf s) pred (inl e) = (
    leaf (pred ∷ []),
    rw e refl,
    inr refl,
    λ look. rw e (ground (arith, (==_iff pred pred).1 refl)),
  )
  neg-reach (leaf s) pred (inr e) =
      (leaf [], rw e refl, inl refl, λ look. rw e (ground (arith, (==_iff pred pred).1 refl)))
  neg-reach (node k v l r) pred (hl, hr) =
      let (l', el, ol, sl) = neg-reach l pred hl in
      let (r', er, or, sr) = neg-reach r pred hr in
      (node k v l' r', rw (el, er) refl, (ol, or), λ look. ground (arith, sl look, sr look))
