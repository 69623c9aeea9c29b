-- ===== src/Fdd/Generator/Classifies.antt =====
-- lib/path.py, fdd_re_tree_gen: the symbol of the leaf that a packet reaches is a character of just
-- the predicates that the packet passes.
use pyretic.Base.{
  ℕ, Bool, true, false, Option, none, some, List, [], ◌∷◌, ◌≡◌, refl, sym, ◌∙◌, ap, inl, inr, Eq,
  has, All, In, length, nat_eq, subst, Bool-ext, any,
}
use pyretic.Regex.{empty, match_string}
use pyretic.Regex.Language.{lang}
use pyretic.Regex.Deriv.{match_string-lang}
use pyretic.Fdd.{Fdd, get_leaves}
use pyretic.Fdd.Merge.{reach}
use pyretic.Fdd.Generator.{
  Atom, get_entry, Character, Prepared, Generator, prep_re_tree, get_re_tree, alter_leaves,
  with_leaves,
}
use pyretic.Fdd.Generator.Symbols.{Room}
use pyretic.Fdd.Generator.Leafs.{members, Names, Labelled, prep_leaves-Labelled}
use pyretic.Fdd.Generator.Indexed.{Base, meaning-get_entry, Named}
use pyretic.Fdd.Generator.Leaves.{
  is_symbol, alter_leaves-lang, same_symbol, alter_found, Growing-none, has_symbol, symbol_of,
  In-map, any-In, In-any, reach-In, Leaves-All,
}

module _ {K V P : Type 0} ⦃ep : Eq P⦄ where
  -- What the symbol of a leaf says of a predicate: it is in the predicate's expression or not, and
  -- without a symbol the predicate fails.
  abbrev pub Says : Generator K V P → P → Atom → Bool → Option ℕ → Type 0
  Says gen p at answer none = answer ≡ false
  Says gen p at answer (some a) = match_string (get_re_tree gen p at) (a ∷ []) ≡ answer

  Says-cases :
      (gen : Generator K V P) (p : P) (at : Atom) (answer : Bool) (o : Option ℕ)
      → (o ≡ none → answer ≡ false)
      → ((a : ℕ) → o ≡ some a → match_string (get_re_tree gen p at) (a ∷ []) ≡ answer)
      → Says gen p at answer o
  Says-cases gen p at answer none f g = f refl
  Says-cases gen p at answer (some a) f g = g a refl

  alter_members :
      (gen : Generator K V P) (p : P) (at : Atom)
      → get_re_tree gen p at ≡ alter_leaves (empty []) (members p gen.pred_to_leafs) at
  unfolding get_re_tree
  alter_members gen p at = alter_found p at gen.pred_to_leafs

  match-members :
      (gen : Generator K V P) (p : P) (at : Atom) (a : ℕ)
      → match_string (get_re_tree gen p at) (a ∷ [])
        ≡ any (is_symbol a) (members p gen.pred_to_leafs)
  unfolding lang
  match-members gen p at a =
      match_string-lang (get_re_tree gen p at) (a ∷ [])
      ∙ ap (λ r. lang r (a ∷ [])) (alter_members gen p at)
      ∙ alter_leaves-lang (empty []) (members p gen.pred_to_leafs) at a

module _ {K V P X : Type 0} ⦃ek : Eq K⦄ ⦃ev : Eq V⦄ ⦃ep : Eq P⦄ where
  module _ (look : X → K → V) (test : P → X → Bool) where
    Names-test :
        (es : List (ℕ × P)) (b : Fdd K V) (p : P) (x : X)
        → Base look test es b
        → Names es (reach (look x) b) p
        → test p x ≡ true
    Names-test es b p x h (n, k, e) = sym (meaning-get_entry test es n p x e) ∙ sym (h.says x n) ∙ k

    test-Names :
        (es : List (ℕ × P)) (b : Fdd K V) (p : P) (x : X) (n : ℕ)
        → Base look test es b
        → get_entry n es ≡ some p
        → test p x ≡ true
        → Names es (reach (look x) b) p
    test-Names es b p x n h e k = (n, h.says x n ∙ meaning-get_entry test es n p x e ∙ k, e)

    module _ (gen : Generator K V P) (b : Fdd K V) (token : ℕ) (result : Option (Prepared P))
        (h : Base look test gen.num_to_pred b)
        (r : Labelled gen.num_to_pred token (get_leaves b) [] result) where
      -- A leaf with this symbol is among those of the predicate if and only if `x` passes it.
      any-test :
          (c : Character) (p : P) (n : ℕ) (x : X) (a : ℕ)
          → In c r.prepared.leaves
          → c.pred_set ≡ reach (look x) b
          → get_entry n gen.num_to_pred ≡ some p
          → c.sym ≡ some a
          → any (is_symbol a) (members p r.prepared.leafs) ≡ test p x
      any-test c p n x a i reached num e =
          Bool-ext (any (is_symbol a) (members p r.prepared.leafs)) (test p x)
            (λ k.
              let (d, j, is_a) = In-any (is_symbol a) (members p r.prepared.leafs) k in
              elim ((r.found p d).0 j) [
                | inl nowhere ↦ absurd nowhere
                | inr (there, named) ↦
                    let same : d ≡ c =
                      same_symbol token r.prepared.leaves d c a r.increasing there i
                        (symbol_of d a is_a) e in
                    Names-test gen.num_to_pred b p x h (
                      subst (λ ns. Names gen.num_to_pred ns p) (ap (λ y. y.pred_set) same ∙ reached)
                        named)
              ])
            (λ k.
              let named = test-Names gen.num_to_pred b p x n h num k in
              any-In (is_symbol a) (members p r.prepared.leafs) c
                ((r.found p c).1
                  (inr (i, subst (λ ns. Names gen.num_to_pred ns p) (sym reached) named)))
                (has_symbol c a e))

      fails :
          (c : Character) (p : P) (n : ℕ) (x : X)
          → In c r.prepared.leaves
          → c.pred_set ≡ reach (look x) b
          → get_entry n gen.num_to_pred ≡ some p
          → c.sym ≡ none
          → test p x ≡ false
      fails c p n x i reached num e =
          let empty_set = Growing-none token r.prepared.leaves c r.increasing i e in
          sym (meaning-get_entry test gen.num_to_pred n p x num)
          ∙ sym (h.says x n)
          ∙ ap (has n) (sym reached ∙ empty_set)

      leaf-Says :
          (c : Character) (p : P) (n : ℕ) (at : Atom) (x : X)
          → In c r.prepared.leaves
          → c.pred_set ≡ reach (look x) b
          → get_entry n gen.num_to_pred ≡ some p
          → Says (with_leaves gen r.prepared).0 p at (test p x) c.sym
      leaf-Says c p n at x i reached num =
          Says-cases (with_leaves gen r.prepared).0 p at (test p x) c.sym
            (λ e. fails c p n x i reached num e)
            (λ a e.
              match-members (with_leaves gen r.prepared).0 p at a
              ∙ any-test c p n x a i reached num e)

    -- With the base diagram of the numbered predicates, and tokens left, prep_re_tree ends without
    -- an exception, and the leaf that `x` reaches says of each predicate if `x` passes it.
    pub prep_re_tree-Says :
        (gen : Generator K V P) (b : Fdd K V) (syms : List ℕ) (token : ℕ) (x : X) (p : P) (n : ℕ)
        (at : Atom)
        → gen.base ≡ some b
        → Base look test gen.num_to_pred b
        → gen.pred_to_leafs ≡ []
        → Room token (length (get_leaves b)) syms
        → get_entry n gen.num_to_pred ≡ some p
        → (gen' : Generator K V P) × (t : ℕ) × (prep_re_tree syms token gen ≡ some (gen', t))
          × (c : Character) × In c gen'.leaf_list
          × (c.pred_set ≡ reach (look x) b)
          × Says gen' p at (test p x) c.sym
    unfolding prep_re_tree
    prep_re_tree-Says gen b syms token x p n at is_base h no_leafs room num =
        let r =
          prep_leaves-Labelled gen.num_to_pred syms (get_leaves b) token []
            (Leaves-All (All (Named gen.num_to_pred)) b h.known) room in
        let (gen', t) = with_leaves gen r.prepared in
        let (c, i, reached) =
          In-map (λ c. c.pred_set) r.prepared.leaves (reach (look x) b)
            (subst (In (reach (look x) b)) (sym r.sets_kept) (reach-In (look x) b)) in
        (
          gen',
          t,
          rw (is_base, no_leafs, r.is_result) refl,
          c,
          i,
          reached,
          leaf-Says gen b token _ h r c p n at x i reached num,
        )
