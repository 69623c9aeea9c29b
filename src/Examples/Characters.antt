-- ===== src/Examples/Characters.antt =====
-- The theorems on filters, their diagrams and their characters, at matches on ports.
use pyretic.Base.{
  ℕ, zero, Bool, false, not, ltb, some, List, [], ◌∷◌, ◌≡◌, refl, arith, has, In, inl, inr, nat_eq,
  All, length, set_eq, set_union,
}
use pyretic.Packet.{option_eq, value_eq, Field, header, port, num, Packet, all_fields}
use pyretic.Packet.Equality.{field_equality}
use pyretic.Match.{is_empty}
use pyretic.Policy.{
  Policy, match, negate, union, intersection, nil, cons, eval, has_packet, port_match,
}
use pyretic.Policy.Passes.{passes, has_packet-negate_eval}
use pyretic.Fdd.{node, leaf, get_leaves}
use pyretic.Fdd.Merge.{reach}
use pyretic.Fdd.Negate.{Only}
use pyretic.Fdd.Translate.{
  Pattern, plain, pattern_equality, Diagram, translate, translate_match, items,
}
use pyretic.Fdd.Translate.Correct.{look}
use pyretic.Fdd.Translate.Filters.{HeaderFilter, HeadersOnly, translate-eval}
use pyretic.Fdd.Generator.{Atom, Generator, Character, cleared, add_preds, prep_re_tree, new_symbol}
use pyretic.Fdd.Generator.Symbols.{Room, Fresh, new_symbol-Fresh}
use pyretic.Fdd.Generator.Classifies.{Says}
use pyretic.Fdd.Generator.Filters.{translate_pred, IsFilter, add_preds-some, prep_re_tree-eval}
use pyretic.Overlap.{Overlap, get_overlap_mode, is_filter}
use pyretic.Overlap.Both.{Plain}
use pyretic.Overlap.Sound.{Right, get_overlap_mode-Right}
use pyretic.Examples.Sample.{prefixes, web_packet}

-- Tests on one field, in the order of their numbers.
abbrev above : Field → Pattern → Field → Pattern → Bool
above f (plain (some (num n))) g (plain (some (num m))) = ltb m n
above f v g w = false

abbrev none_dynamic : Policy → Bool
none_dynamic p = false

-- Predicate 0 is port 1, all others are port 2.
abbrev on_port : ℕ → Policy
on_port zero = match (port_match 1)
on_port _ = match (port_match 2)

port_match-HeadersOnly : (n : ℕ) → HeadersOnly (port_match n)
port_match-HeadersOnly n = (λ f. refl, λ t. refl)

-- ~port 1, and port 1 or 2
abbrev not_first : Policy
not_first = intersection (
    cons (negate (match (port_match 1)))
      (cons (union (cons (match (port_match 1)) (cons (match (port_match 2)) nil))) nil))

not_first-HeaderFilter : HeaderFilter above none_dynamic not_first
not_first-HeaderFilter =
    (port_match-HeadersOnly 1, ((port_match-HeadersOnly 1, (port_match-HeadersOnly 2, tt)), tt))

translate-eval_example :
    (d : Diagram) × (translate above none_dynamic not_first 4 ≡ some d)
    × Only 4 d
    × ((pkt : Packet) → has 4 (reach (look pkt) d) ≡ has_packet (eval not_first pkt))
translate-eval_example = translate-eval above none_dynamic not_first 4 not_first-HeaderFilter

abbrev added : List (ℕ × Atom)
added = (0, 50) ∷ (1, 51) ∷ (0, 52) ∷ []

added-IsFilter : All (λ x. IsFilter above none_dynamic on_port x.0) added
added-IsFilter =
    (port_match-HeadersOnly 1, (port_match-HeadersOnly 2, (port_match-HeadersOnly 1, tt)))

abbrev both_ports : Diagram
both_ports =
    node (header port) (plain (some (num 1))) (leaf (0 ∷ []))
      (node (header port) (plain (some (num 2))) (leaf (1 ∷ [])) (leaf []))

abbrev numbered : Generator Field Pattern ℕ
numbered = record {
  num_to_pred = (1, 1) ∷ (0, 0) ∷ [];
  next = 2;
  pred_to_atoms = (1, 51 ∷ []) ∷ (0, 50 ∷ 52 ∷ []) ∷ [];
  pred_to_leafs = [];
  leaf_list = [];
  base = some both_ports;
}

added_run :
    add_preds above (translate_pred above none_dynamic on_port) (cleared Field Pattern ℕ) added
    ≡ some numbered
unfolding add_preds translate is_empty all_fields translate_match items option_eq value_eq set_eq
    set_union
added_run = refl

add_preds-some_example :
    (gen : Generator Field Pattern ℕ) × (add_preds above
        (translate_pred above none_dynamic on_port)
        (cleared Field Pattern ℕ)
        added
      ≡ some gen)
add_preds-some_example = add_preds-some above none_dynamic on_port added added-IsFilter

-- Symbol 2 is in use elsewhere.
abbrev in_use : List ℕ
in_use = 2 ∷ []

both_ports-Room : Room 0 (length (get_leaves both_ports)) in_use
unfolding get_leaves
both_ports-Room = omega arith

prep_re_tree-eval_example :
    (gen' : Generator Field Pattern ℕ) × (t : ℕ) × (prep_re_tree in_use 0 numbered ≡ some (gen', t))
    × (c : Character) × In c gen'.leaf_list
    × (c.pred_set ≡ reach (look web_packet) both_ports)
    × Says gen' 0 52 (has_packet (eval (on_port 0) web_packet)) c.sym
prep_re_tree-eval_example =
    prep_re_tree-eval above none_dynamic on_port added numbered both_ports in_use 0 web_packet
      (0, 52) added-IsFilter added_run refl both_ports-Room (inr (inr (inl refl)))

new_symbol-Fresh_example : Fresh in_use 1 2 (new_symbol in_use 0)
new_symbol-Fresh_example = new_symbol-Fresh in_use 0 2 (omega arith)

abbrev first : Policy
first = match (port_match 1)

abbrev either : Policy
either = union (cons (match (port_match 1)) (cons (match (port_match 2)) nil))

negate_passes : (p : Policy) (pkt : Packet) → passes (negate p) pkt ≡ not (passes p pkt)
unfolding eval
negate_passes p pkt = has_packet-negate_eval (eval p pkt) pkt

first-Plain : Plain first
first-Plain = (λ t. refl, tt)

either-Plain : Plain either
either-Plain = ((λ t. refl, (λ t. refl, tt)), (tt, (tt, tt)))

get_overlap_mode-Right_example :
    (o : Overlap) × (get_overlap_mode none_dynamic first (negate first) either (negate either)
      ≡ some o)
    × ((pkt : Packet) → Right o (passes first pkt) (passes either pkt))
unfolding is_filter
get_overlap_mode-Right_example =
    get_overlap_mode-Right none_dynamic first (negate first) either (negate either)
      (first-Plain, refl) ((first-Plain, tt), refl) (either-Plain, refl)
      ((either-Plain, either-Plain.1), refl) (negate_passes first) (negate_passes either)
