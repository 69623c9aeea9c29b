-- ===== src/Fdd/Translate.antt =====
-- lib/path.py, FDDTranslator.translate: the decision diagram of a filter.
pub mod Correct
pub mod Filters
use pyretic.Base.{
  ℕ, suc, ◌+◌, Bool, true, false, Option, none, some, List, [], ◌∷◌, ◌≡◌, refl, ap, ◌↔◌, arith,
  filter_map, map_option, bind, if◌then◌else◌, Eq,
}
use pyretic.Packet.{Field, ip, header, tag, all_fields, Value, option_eq, option_eq_iff}
use pyretic.Packet.Equality.{field_equality}
use pyretic.Ipaddr.{Ipaddr}
use pyretic.Match.{MatchMap, PatternOf, is_empty}
use pyretic.Policy.{
  Policy, identity, drop, controller, match, modify, query, negate, parallel, union, sequential,
  intersection, derived, if_, Policies, nil, cons,
}
use pyretic.Fdd.{Fdd, node, leaf, Fmap, merge, neg}
use pyretic.Fdd.Merge.{size}

module _ ⦃i : Ipaddr⦄ where
  open i use {Network, network_eq, network_eq_iff}

  -- The values of a match's dictionary: networks, and values or `None`.
  pub data Pattern : Type 0 where
    network : Network → Pattern
    plain : Option Value → Pattern

  abbrev pub pattern_equal : Pattern → Pattern → Bool
  pattern_equal (network n) (network m) = network_eq n m
  pattern_equal (plain v) (plain w) = option_eq v w
  pattern_equal _ _ = false

  pub pattern_equal_iff : (p q : Pattern) → (pattern_equal p q ≡ true) ↔ (p ≡ q)
  pattern_equal_iff (network n) (network m) = ground (arith, network_eq_iff n m)
  pattern_equal_iff (plain v) (plain w) = ground (arith, option_eq_iff v w)
  pattern_equal_iff (network n) (plain w) = ground arith
  pattern_equal_iff (plain v) (network m) = ground arith

  instance abbrev pub pattern_equality : Eq Pattern
  pattern_equality = record { eq = pattern_equal; eq_iff = pattern_equal_iff }

  abbrev pub Diagram : Type 0
  Diagram = Fdd Field Pattern

  abbrev pub pattern_of : (f : Field) → PatternOf f → Pattern
  pattern_of (ip _) n = network n
  pattern_of (header _) p = plain p
  pattern_of (tag _) p = plain p

  abbrev pub test_of : (f : Field) → Option (PatternOf f) → Option (Field × Pattern)
  test_of f entry = map_option (λ p. (f, pattern_of f p)) entry

  -- pol.map.items(), in the order of all_fields
  unfoldable pub items : MatchMap → List (Field × Pattern)
  items m = filter_map (λ f. test_of f (m f)) all_fields

  abbrev pub get_id : ℕ → Diagram
  get_id pred = leaf (pred ∷ [])

  abbrev pub get_drop : Diagram
  get_drop = leaf []

  abbrev pub test_diagram : ℕ → Field × Pattern → Diagram
  test_diagram pred t = node t.0 t.1 (get_id pred) get_drop

  abbrev pub no_entries : Fmap Field Pattern
  no_entries f = none

  -- `greater` is the order that `>` is on tests.
  module _ (greater : Field → Pattern → Field → Pattern → Bool) where
    -- merge(d1, d2, {}, union), with fuel for all nodes of the two diagrams
    unfoldable pub merge_fresh : Bool → Diagram → Diagram → Option Diagram
    unfolding size
    merge_fresh is_union d1 d2 =
        map_option (λ x. x.0) (merge greater is_union (suc (size d1 + size d2)) d1 d2 no_entries)

    unfoldable pub merge_tests : ℕ → Diagram → List (Field × Pattern) → Option Diagram
    unfolding merge_fresh
    merge_tests pred res [] = some res
    merge_tests pred res (t ∷ ts) =
        bind (merge_fresh false res (test_diagram pred t)) (λ d. merge_tests pred d ts)

    -- The branch for a match; fmap[0] of no items is an IndexError.
    unfoldable pub translate_match : ℕ → List (Field × Pattern) → Option Diagram
    unfolding merge_tests
    translate_match pred [] = none
    translate_match pred (t ∷ ts) = merge_tests pred (test_diagram pred t) ts

    -- Is a policy that carries another one a DynamicFilter? The others, as `difference`, have no
    -- case.
    module _ (is_dynamic_filter : Policy → Bool) where
      -- translate; `none` is an exception.
      unfoldable mutual
        pub translate : Policy → ℕ → Option Diagram
        translate identity pred = some (get_id pred)
        translate drop pred = some get_drop
        translate (match m) pred =
            if is_empty m then some (get_id pred) else translate_match pred (items m)
        translate (negate p) pred = bind (translate p pred) (λ d. neg d pred)
        translate (union ps) pred = translate_list true ps pred
        translate (intersection ps) pred = translate_list false ps pred
        translate (derived p) pred =
            let inner = translate p pred in if is_dynamic_filter (derived p) then inner else none
        translate controller pred = none
        translate (modify m) pred = none
        translate (query b) pred = none
        translate (parallel ps) pred = none
        translate (sequential ps) pred = none
        translate (if_ pred' t_branch f_branch policy) pred = none

        -- pol.policies[0], then the loop over the others
        pub translate_list : Bool → Policies → ℕ → Option Diagram
        translate_list is_union nil pred = none
        translate_list is_union (cons p ps) pred =
            bind (translate p pred) (λ d. merge_from is_union d ps pred)

        pub merge_from : Bool → Diagram → Policies → ℕ → Option Diagram
        merge_from is_union res nil pred = some res
        merge_from is_union res (cons p ps) pred =
            bind (translate p pred)
              (λ d. bind (merge_fresh is_union res d) (λ e. merge_from is_union e ps pred))
