-- ===== src/Fdd/Generator/Filters.antt =====
-- lib/path.py, fdd_re_tree_gen with FDDTranslator: the characters of filters.
use pyretic.Base.{
  ℕ, Bool, Option, some, List, [], ◌≡◌, Eq, All, All_at, nat_eq, some_inj, In, length, subst, sym,
  ◌∙◌,
}
use pyretic.Packet.{Field, Packet}
use pyretic.Packet.Equality.{field_equality}
use pyretic.Ipaddr.{Ipaddr}
use pyretic.Policy.{Policy, eval, has_packet}
use pyretic.Fdd.{get_leaves}
use pyretic.Fdd.Merge.{reach}
use pyretic.Fdd.Translate.{Pattern, pattern_equality, Diagram, translate}
use pyretic.Fdd.Translate.Correct.{look}
use pyretic.Fdd.Translate.Filters.{HeaderFilter, translate-eval}
use pyretic.Fdd.Generator.{Atom, get_entry, Character, Generator, cleared, add_preds, prep_re_tree}
use pyretic.Fdd.Generator.Symbols.{Room}
use pyretic.Fdd.Generator.Indexed.{BaseOf, Indexed, Single, cleared-Indexed, Grown, add_preds-Grown}
use pyretic.Fdd.Generator.Classifies.{Says, prep_re_tree-Says}

module _ ⦃i : Ipaddr⦄ {P : Type 0} ⦃ep : Eq P⦄ (greater : Field → Pattern → Field → Pattern → Bool)
    (is_dynamic_filter : Policy → Bool) (policy_of : P → Policy) where
  abbrev pub FilterGenerator : Type 0
  FilterGenerator = Generator Field Pattern P

  abbrev pub translate_pred : P → ℕ → Option Diagram
  translate_pred p n = translate greater is_dynamic_filter (policy_of p) n

  abbrev test : P → Packet → Bool
  test p pkt = has_packet (eval (policy_of p) pkt)

  abbrev pub IsFilter : P → Type 0
  IsFilter p = HeaderFilter greater is_dynamic_filter (policy_of p)

  translates :
      (p : P) (n : ℕ)
      → IsFilter p
      → (d : Diagram) × (translate_pred p n ≡ some d) × Single look test d n p
  translates p n h =
      let (d, e, only, says) = translate-eval greater is_dynamic_filter (policy_of p) n h in
      (d, e, record { only = only; decides = says })

  grown :
      (xs : List (P × Atom))
      → All (λ x. IsFilter x.0) xs
      → Grown look test greater IsFilter translate_pred translates
          (cleared Field Pattern P)
          xs
          (add_preds greater translate_pred (cleared Field Pattern P) xs)
  grown xs h =
      add_preds-Grown look test greater IsFilter translate_pred translates xs
        (cleared Field Pattern P) (cleared-Indexed look test) h

  -- Predicates that are filters over header fields are added to an empty generator without an
  -- exception.
  pub add_preds-some :
      (xs : List (P × Atom))
      → All (λ x. IsFilter x.0) xs
      → (gen : FilterGenerator) × (add_preds greater translate_pred (cleared Field Pattern P) xs
          ≡ some gen)
  add_preds-some xs h = let g = grown xs h in (g.gen', g.is_result)

  -- After predicates that are filters over header fields have been added to an empty generator,
  -- and if the tokens are enough for the leaves of the base diagram, prep_re_tree ends without an
  -- exception, and for any packet there is a leaf, that which its headers lead to, whose symbol the
  -- expression of a predicate added matches if and only if the evaluation of the predicate returns
  -- the packet; where that leaf has no symbol, the predicate drops the packet.
  pub prep_re_tree-eval :
      (xs : List (P × Atom)) (gen : FilterGenerator) (b : Diagram) (syms : List ℕ) (token : ℕ)
      (pkt : Packet) (x : P × Atom)
      → All (λ x. IsFilter x.0) xs
      → add_preds greater translate_pred (cleared Field Pattern P) xs ≡ some gen
      → gen.base ≡ some b
      → Room token (length (get_leaves b)) syms
      → In x xs
      → (gen' : FilterGenerator) × (t : ℕ) × (prep_re_tree syms token gen ≡ some (gen', t))
        × (c : Character) × In c gen'.leaf_list
        × (c.pred_set ≡ reach (look pkt) b)
        × Says gen' x.0 x.1 (has_packet (eval (policy_of x.0) pkt)) c.sym
  prep_re_tree-eval xs gen b syms token pkt x h added is_base room i =
      let g = grown xs h in
      let same : g.gen' ≡ gen = some_inj (sym g.is_result ∙ added) in
      let indexed = subst (Indexed look test) same g.indexed in
      let (n, num) =
        subst (λ d. (n : ℕ) × (get_entry n d.num_to_pred ≡ some x.0)) same
          (All_at _ xs x g.added i) in
      prep_re_tree-Says look test gen b syms token pkt x.0 n x.1 is_base
        (subst (BaseOf look test gen.num_to_pred) is_base indexed.base)
        (subst (λ d. d.pred_to_leafs ≡ []) same g.leafs) room num
