-- ===== src/Fdd/Generator.antt =====
-- lib/path.py, fdd_re_tree_gen: the characters that stand for the predicates of path queries.
pub mod Indexed
pub mod Symbols
pub mod Leafs
pub mod Leaves
pub mod Classifies
pub mod Filters
use pyretic.Base.{
  ℕ, zero, suc, ◌+◌, ◌<◌, Bool, true, false, ◌&&◌, not, Option, none, some, List, [], ◌∷◌, ◌++◌,
  ltb, map_option, bind, if◌then◌else◌, Eq, nat_eq, has,
}
use pyretic.Fdd.{Fdd, Fmap, get_leaves, merge}
use pyretic.Fdd.Merge.{size}
use pyretic.Regex.{Re, empty, symbol, smart_alter}

-- An atom, by its identity.
abbrev pub Atom : Type 0
Atom = ℕ

-- A dictionary as the list of its entries.
module _ {K A : Type 0} ⦃e : Eq K⦄ where
  unfoldable pub get_entry : K → List (K × A) → Option A
  get_entry k [] = none
  get_entry k (x ∷ xs) = if e.eq k x.0 then some x.1 else get_entry k xs

  -- d[k].append(a)
  unfoldable pub append_at : K → A → List (K × List A) → List (K × List A)
  append_at k a [] = []
  append_at k a (x ∷ xs) = if e.eq k x.0 then (x.0, x.1 ++ a ∷ []) ∷ xs else x ∷ append_at k a xs

  -- if not k in d: d[k] = []; then d[k].append(a)
  unfoldable pub push_at : K → A → List (K × List A) → List (K × List A)
  push_at k a [] = (k, a ∷ []) ∷ []
  push_at k a (x ∷ xs) = if e.eq k x.0 then (x.0, x.1 ++ a ∷ []) ∷ xs else x ∷ push_at k a xs

-- A leaf that is no drop: its predicates, and its symbol.
pub record Character : Type 0 where
  pub pred_set : List ℕ
  pub sym : Option ℕ

abbrev pub token_end : ℕ
token_end = 4294967295

-- __new_token__; past the end it asks for a class attribute that there is not.
unfoldable pub new_token : ℕ → Option ℕ
new_token token = if ltb token_end (token + 2) then none else some (token + 2)

-- The loop of __new_symbol__, on fuel. Every round raises the token, so that the fuel of one round
-- for each token ends by the exception at the latest.
unfoldable pub next_token : ℕ → List ℕ → ℕ → Option ℕ
next_token zero syms token = none
next_token (suc n) syms token =
    let rest = bind (new_token token) (next_token n syms) in
    if has token syms then rest else some token

unfoldable pub new_symbol : List ℕ → ℕ → Option ℕ
unfolding new_token next_token
new_symbol syms token = bind (new_token token) (next_token (suc token_end) syms)

-- The dictionaries that the theorems are about; leaf_list and pred_to_leafs are set at the end.
pub record Generator (K V P : Type 0) : Type 0 where
  pub num_to_pred : List (ℕ × P)
  pub next : ℕ
  pub pred_to_atoms : List (P × List Atom)
  pub pred_to_leafs : List (P × List Character)
  pub leaf_list : List Character
  pub base : Option (Fdd K V)

-- clear
abbrev pub cleared : (K V P : Type 0) → Generator K V P
cleared K V P = record {
  num_to_pred = [];
  next = 0;
  pred_to_atoms = [];
  pred_to_leafs = [];
  leaf_list = [];
  base = none;
}

abbrev pub no_fields : {K V : Type 0} → Fmap K V
no_fields k = none

abbrev pub with_pred : {K V P : Type 0} → Generator K V P → P → Atom → Fdd K V → Generator K V P
with_pred gen pred at b = record gen {
  num_to_pred = (gen.next, pred) ∷ gen.num_to_pred;
  next = suc gen.next;
  pred_to_atoms = (pred, at ∷ []) ∷ gen.pred_to_atoms;
  base = some b;
}

module _ {K V : Type 0} ⦃ek : Eq K⦄ ⦃ev : Eq V⦄ (greater : K → V → K → V → Bool) where
  unfoldable pub merge_base : Fdd K V → Option (Fdd K V) → Option (Fdd K V)
  unfolding merge size
  merge_base d none = some d
  merge_base d (some b) =
      map_option (λ x. x.0) (merge greater true (suc (size d + size b)) d b no_fields)

  module _ {P : Type 0} ⦃ep : Eq P⦄ (translate : P → ℕ → Option (Fdd K V)) where
    -- add_pred, for a predicate without dynamic parts; `none` is an exception of the translation.
    unfoldable pub add_pred : Generator K V P → P → Atom → Option (Generator K V P)
    unfolding merge_base get_entry append_at
    add_pred gen pred at = elim (get_entry pred gen.pred_to_atoms) [
      | some ats ↦ some (record gen { pred_to_atoms = append_at pred at gen.pred_to_atoms })
      | none ↦
          bind (translate pred gen.next)
            (λ d. map_option (with_pred gen pred at) (merge_base d gen.base))
    ]

    unfoldable pub add_preds : Generator K V P → List (P × Atom) → Option (Generator K V P)
    unfolding add_pred
    add_preds gen [] = some gen
    add_preds gen (x ∷ xs) = bind (add_pred gen x.0 x.1) (λ g. add_preds g xs)

abbrev pub char_re : Option ℕ → Atom → Re
char_re none at = empty []
char_re (some s) at = symbol s (at ∷ [])

-- The loop of get_re_tree.
unfoldable pub alter_leaves : Re → List Character → Atom → Re
unfolding smart_alter
alter_leaves tree [] at = tree
alter_leaves tree (c ∷ cs) at = alter_leaves (smart_alter tree (char_re c.sym at)) cs at

abbrev pub Leafs : Type 0 → Type 0
Leafs P = List (P × List Character)

-- The leaves with their symbols, pred_to_leafs, and the class attribute `token`.
pub record Prepared (P : Type 0) : Type 0 where
  pub leaves : List Character
  pub leafs : Leafs P
  pub token : ℕ

module _ {P : Type 0} ⦃ep : Eq P⦄ where
  -- The inner loop of prep_re_tree, over the predicates of a leaf.
  unfoldable pub push_leaf : List (ℕ × P) → Character → List ℕ → Leafs P → Option (Leafs P)
  unfolding get_entry push_at
  push_leaf preds c [] leafs = some leafs
  push_leaf preds c (n ∷ ns) leafs =
      bind (get_entry n preds) (λ p. push_leaf preds c ns (push_at p c leafs))

  abbrev pub cons_left : Character → Prepared P → Prepared P
  cons_left c r = record r { leaves = c ∷ r.leaves }

  -- The loop of prep_re_tree. A leaf without predicates gets no symbol.
  unfoldable pub prep_leaves :
      List (ℕ × P) → List ℕ → ℕ → List (List ℕ) → Leafs P → Option (Prepared P)
  unfolding push_leaf new_symbol
  prep_leaves preds syms token [] leafs =
      some (record { leaves = []; leafs = leafs; token = token })
  prep_leaves preds syms token ([] ∷ sets) leafs =
      map_option (cons_left (record { pred_set = []; sym = none }))
        (prep_leaves preds syms token sets leafs)
  prep_leaves preds syms token ((n ∷ ns) ∷ sets) leafs = bind (new_symbol syms token) (λ s.
      bind (push_leaf preds (record { pred_set = n ∷ ns; sym = some s }) (n ∷ ns) leafs) (λ l.
        map_option (cons_left (record { pred_set = n ∷ ns; sym = some s }))
          (prep_leaves preds syms s sets l)))

  module _ {K V : Type 0} where
    abbrev pub with_leaves : Generator K V P → Prepared P → Generator K V P × ℕ
    with_leaves gen r = (record gen { leaf_list = r.leaves; pred_to_leafs = r.leafs }, r.token)

    -- prep_re_tree; `none` is an exception. `syms` are the symbols of the other generators.
    unfoldable pub prep_re_tree : List ℕ → ℕ → Generator K V P → Option (Generator K V P × ℕ)
    unfolding prep_leaves
    prep_re_tree syms token gen = bind gen.base (λ b.
        map_option (with_leaves gen)
          (prep_leaves gen.num_to_pred syms token (get_leaves b) gen.pred_to_leafs))

    -- get_re_tree
    unfoldable pub get_re_tree : Generator K V P → P → Atom → Re
    unfolding get_entry alter_leaves
    get_re_tree gen pred at = elim (get_entry pred gen.pred_to_leafs) [
      | none ↦ empty []
      | some leafs ↦ alter_leaves (empty []) leafs at
    ]
