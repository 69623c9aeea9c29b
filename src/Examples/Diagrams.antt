-- ===== src/Examples/Diagrams.antt =====
-- The theorems on decision diagrams, for fields and values that are numbers.
use pyretic.Base.{
  has, not, some, inl, inr, ℕ, Bool, true, ◌==◌, ◌&&◌, ◌||◌, ltb, none, [], ◌∷◌, ◌≡◌, refl, nat_eq,
  arith, Option,
}
use pyretic.Fdd.{Fdd, node, leaf, merge, neg}
use pyretic.Fdd.Merge.{Joins, merge-Joins, size, reach}
use pyretic.Fdd.Negate.{Only, neg-reach}

abbrev greater : ℕ → ℕ → ℕ → ℕ → Bool
greater k v k' v' = ltb k' k || (k == k' && ltb v' v)

-- Field 1 is 5, for the predicate 7.
abbrev five : Fdd ℕ ℕ
five = node 1 5 (leaf (7 ∷ [])) (leaf [])

-- Field 1 is 6, or else field 2 is 3, for the predicate 8.
abbrev six : Fdd ℕ ℕ
six = node 1 6 (leaf (8 ∷ [])) (node 2 3 (leaf (8 ∷ [])) (leaf []))

abbrev no_keys : ℕ → Option ℕ
no_keys k = none

merge_run : merge greater true 4 five six no_keys ≡ merge greater true 9 five six no_keys
unfolding merge
merge_run = refl

merge-Joins_example : Joins true five six no_keys (merge greater true 4 five six no_keys)
unfolding size
merge-Joins_example = merge-Joins greater true 4 five six no_keys (omega arith)

neg-reach_example :
    (d' : Fdd ℕ ℕ) × (neg five 7 ≡ some d')
    × Only 7 d'
    × ((look : ℕ → ℕ) → has 7 (reach look d') ≡ not (has 7 (reach look five)))
neg-reach_example = neg-reach five 7 (inr refl, inl refl)
