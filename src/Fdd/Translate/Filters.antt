-- ===== src/Fdd/Translate/Filters.antt =====
-- lib/path.py, FDDTranslator.translate: on a filter over the other headers than the IP addresses and
-- the tags, its diagram decides what its evaluation does.
use pyretic.Base.{
  ℕ, Bool, true, false, ◌&&◌, Option, none, some, List, [], ◌∷◌, ◌≡◌, refl, sym, ◌∙◌, ap, arith,
  inl, inr, has, true≢false, filter_map, push_option, if◌then◌else◌, all, Bool-cases, Bool-ext,
}
use pyretic.Packet.{
  IpField, Header, Field, ip, header, tag, all_fields, Value, option_eq, option_eq_iff, Packet,
}
use pyretic.Packet.Equality.{field_equality}
use pyretic.Ipaddr.{Ipaddr}
use pyretic.Match.{
  MatchMap, PatternOf, is_none, is_empty, accepts_value, accepts, accepts_at, match_eval,
}
use pyretic.Match.Meaning.{Untagged, match_eval-empty}
use pyretic.Policy.{
  Policy, identity, drop, controller, match, modify, query, negate, parallel, union, sequential,
  intersection, derived, if_, Policies, nil, cons, eval, has_packet,
}
use pyretic.Policy.Support.{PureFilter, PureFilters}
use pyretic.Policy.Passes.{
  passes, all_pass, any_passes, has_packet-negate_eval, has_packet-eval_all, has_packet-eval_seq,
}
use pyretic.Fdd.Merge.{joined, reach}
use pyretic.Fdd.Negate.{Only}
use pyretic.Fdd.Translate.{
  Pattern, pattern_equality, Diagram, test_of, items, get_id, translate_match, translate,
  translate_list, merge_from,
}
use pyretic.Fdd.Translate.Correct.{
  look, holds, Decided, Decides, Decided-id, Decided-drop, Decided-cong, negate-Decides,
  merge_fresh-Decides, translate_match-Decides,
}

option_eq_sym : (v w : Option Value) → option_eq v w ≡ option_eq w v
option_eq_sym v w =
    Bool-ext (option_eq v w) (option_eq w v)
      (λ h. (option_eq_iff w v).1 (sym ((option_eq_iff v w).0 h)))
      (λ h. (option_eq_iff v w).1 (sym ((option_eq_iff w v).0 h)))

module _ ⦃i : Ipaddr⦄ where
  accepts_value-eq : (p v : Option Value) → option_eq p v ≡ accepts_value p v
  unfolding accepts_value option_eq
  accepts_value-eq none none = refl
  accepts_value-eq (some p) (some v) = refl
  accepts_value-eq none (some v) = refl
  accepts_value-eq (some p) none = refl

  -- No IP addresses and no tags.
  abbrev pub HeadersOnly : MatchMap → Type 0
  HeadersOnly m = ((f : IpField) → m (ip f) ≡ none) × Untagged m

  abbrev collected : MatchMap → List Field → List (Field × Pattern)
  collected m fs = filter_map (λ f. test_of f (m f)) fs

  all-push :
      (m : MatchMap) (pkt : Packet) (f : Header) (entry : Option (Option Value))
      (ts : List (Field × Pattern))
      → all (holds pkt) (push_option (test_of (header f) entry) ts)
        ≡ (accepts_at m pkt (header f) entry && all (holds pkt) ts)
  unfolding accepts
  all-push m pkt f none ts = refl
  all-push m pkt f (some p) ts =
      ap (λ b. b && all (holds pkt) ts)
        (option_eq_sym (pkt.header (header f)) p ∙ accepts_value-eq p (pkt.header (header f)))

  collected-holds :
      (m : MatchMap) (pkt : Packet) (fs : List Field)
      → HeadersOnly m
      → all (holds pkt) (collected m fs) ≡ all (λ f. accepts_at m pkt f (m f)) fs
  collected-holds m pkt [] h = refl
  collected-holds m pkt (ip f ∷ fs) h = rw (h.0 f) (collected-holds m pkt fs h)
  collected-holds m pkt (tag f ∷ fs) h = rw (h.1 f) (collected-holds m pkt fs h)
  collected-holds m pkt (header f ∷ fs) h =
      all-push m pkt f (m (header f)) (collected m fs)
      ∙ ap (λ b. accepts_at m pkt (header f) (m (header f)) && b) (collected-holds m pkt fs h)

  push-empty :
      (f : Field) (entry : Option (PatternOf f)) (ts : List (Field × Pattern))
      → push_option (test_of f entry) ts ≡ []
      → (is_none entry ≡ true) × (ts ≡ [])
  push-empty f none ts h = (refl, h)
  push-empty f (some p) ts h = absurd (ground arith)

  collected-empty :
      (m : MatchMap) (fs : List Field) → collected m fs ≡ [] → all (λ f. is_none (m f)) fs ≡ true
  collected-empty m [] h = refl
  collected-empty m (f ∷ fs) h =
      let (entry, rest) = push-empty f (m f) (collected m fs) h in
      rw entry (collected-empty m fs rest)

  match-holds :
      (m : MatchMap) (pkt : Packet) → HeadersOnly m → all (holds pkt) (items m) ≡ match_eval m pkt
  unfolding items match_eval
  match-holds m pkt h = collected-holds m pkt all_fields h

  items-empty : (m : MatchMap) → items m ≡ [] → is_empty m ≡ true
  unfolding items is_empty
  items-empty m h = collected-empty m all_fields h

  passes-match : (m : MatchMap) (pkt : Packet) → match_eval m pkt ≡ passes (match m) pkt
  unfolding eval has_packet
  passes-match m pkt = ground arith

  module _ (greater : Field → Pattern → Field → Pattern → Bool)
      (is_dynamic_filter : Policy → Bool) where
    -- Filters that translate has a case for, over header fields only.
    abbrev mutual
      pub HeaderFilter : Policy → Type 0
      HeaderFilter identity = Unit
      HeaderFilter drop = Unit
      HeaderFilter (match m) = HeadersOnly m
      HeaderFilter (negate p) = HeaderFilter p
      HeaderFilter (union ps) = SomeFilters ps
      HeaderFilter (intersection ps) = SomeFilters ps
      HeaderFilter (derived p) = (is_dynamic_filter (derived p) ≡ true) × HeaderFilter p
      HeaderFilter _ = ⊥

      pub SomeFilters : Policies → Type 0
      SomeFilters nil = ⊥
      SomeFilters (cons p ps) = HeaderFilter p × HeaderFilters ps

      pub HeaderFilters : Policies → Type 0
      HeaderFilters nil = Unit
      HeaderFilters (cons p ps) = HeaderFilter p × HeaderFilters ps

    mutual
      HeaderFilter-PureFilter : (p : Policy) → HeaderFilter p → PureFilter p
      HeaderFilter-PureFilter identity h = tt
      HeaderFilter-PureFilter drop h = tt
      HeaderFilter-PureFilter (match m) h = tt
      HeaderFilter-PureFilter (negate p) h = HeaderFilter-PureFilter p h
      HeaderFilter-PureFilter (union ps) h = SomeFilters-PureFilters ps h
      HeaderFilter-PureFilter (intersection ps) h = SomeFilters-PureFilters ps h
      HeaderFilter-PureFilter (derived p) h = HeaderFilter-PureFilter p h.1
      HeaderFilter-PureFilter _ h = absurd h

      SomeFilters-PureFilters : (ps : Policies) → SomeFilters ps → PureFilters ps
      SomeFilters-PureFilters nil h = absurd h
      SomeFilters-PureFilters (cons p ps) h =
          (HeaderFilter-PureFilter p h.0, HeaderFilters-PureFilters ps h.1)

      HeaderFilters-PureFilters : (ps : Policies) → HeaderFilters ps → PureFilters ps
      HeaderFilters-PureFilters nil h = tt
      HeaderFilters-PureFilters (cons p ps) h =
          (HeaderFilter-PureFilter p h.0, HeaderFilters-PureFilters ps h.1)

    -- What the other policies of the list say.
    abbrev combined : Bool → Policies → Packet → Bool
    combined u ps pkt = if u then any_passes ps pkt else all_pass ps pkt

    joined-combined :
        (u : Bool) (p : Policy) (ps : Policies) (b : Bool) (pkt : Packet)
        → joined u (joined u b (passes p pkt)) (combined u ps pkt)
          ≡ joined u b (combined u (cons p ps) pkt)
    joined-combined u p ps b pkt = ground arith

    match-Decides :
        (m : MatchMap) (pred : ℕ)
        → HeadersOnly m
        → Decides
            (if is_empty m then some (get_id pred) else translate_match greater pred (items m))
            pred
            (passes (match m))
    match-Decides m pred h = elim (Bool-cases (is_empty m)) [
      | inl e ↦ rw e (
        get_id pred,
        refl,
        Decided-cong (passes (match m)) (λ pkt. sym (match_eval-empty m pkt e) ∙ passes-match m pkt)
            (Decided-id pred),
      )
      | inr e ↦
          let (d, is, k) =
            translate_match-Decides greater pred (items m)
              (λ none_left. true≢false (sym (items-empty m none_left) ∙ e)) in
          rw e (
            d,
            is,
            Decided-cong (passes (match m)) (λ pkt. match-holds m pkt h ∙ passes-match m pkt) k,
          )
    ]

    mutual
      unfolding translate eval has_packet

      translate-Decides :
          (p : Policy) (pred : ℕ)
          → HeaderFilter p
          → Decides (translate greater is_dynamic_filter p pred) pred (passes p)
      translate-Decides identity pred h = (_, refl, Decided-id pred)
      translate-Decides drop pred h = (_, refl, Decided-drop pred)
      translate-Decides (match m) pred h = match-Decides m pred h
      translate-Decides (negate p) pred h =
          let (d, e, k) =
            negate-Decides (translate greater is_dynamic_filter p pred) pred (passes p)
              (translate-Decides p pred h) in
          (
            d,
            e,
            Decided-cong (passes (negate p)) (λ pkt. sym (has_packet-negate_eval (eval p pkt) pkt))
                k,
          )
      translate-Decides (union ps) pred h =
          let (d, e, k) = translate_list-Decides true ps pred h in
          (d, e, Decided-cong (passes (union ps)) (λ pkt. sym (has_packet-eval_all ps pkt)) k)
      translate-Decides (intersection ps) pred h =
          let (d, e, k) = translate_list-Decides false ps pred h in
          (
            d,
            e,
            Decided-cong (passes (intersection ps))
                (λ pkt. sym (has_packet-eval_seq ps pkt (SomeFilters-PureFilters ps h))) k,
          )
      translate-Decides (derived p) pred h =
          let (d, e, k) = translate-Decides p pred h.1 in (d, rw h.0 e, k)
      translate-Decides (parallel ps) pred h = absurd h
      translate-Decides (sequential ps) pred h = absurd h
      translate-Decides (if_ a b c d) pred h = absurd h
      translate-Decides (modify m) pred h = absurd h
      translate-Decides (query b) pred h = absurd h
      translate-Decides controller pred h = absurd h

      translate_list-Decides :
          (u : Bool) (ps : Policies) (pred : ℕ)
          → SomeFilters ps
          → Decides (translate_list greater is_dynamic_filter u ps pred) pred (combined u ps)
      translate_list-Decides u nil pred h = absurd h
      translate_list-Decides u (cons p ps) pred h =
          let (d, e, k) = translate-Decides p pred h.0 in
          let (d', e', k') = merge_from-Decides u d ps pred (passes p) k h.1 in
          (d', rw e e', Decided-cong _ (λ pkt. ground arith) k')

      merge_from-Decides :
          (u : Bool) (res : Diagram) (ps : Policies) (pred : ℕ) (f : Packet → Bool)
          → Decided res pred f
          → HeaderFilters ps
          → Decides
              (merge_from greater is_dynamic_filter u res ps pred)
              pred
              (λ pkt. joined u (f pkt) (combined u ps pkt))
      merge_from-Decides u res nil pred f k h = (res, refl, Decided-cong _ (λ pkt. ground arith) k)
      merge_from-Decides u res (cons p ps) pred f k h =
          let (d, e, kd) = translate-Decides p pred h.0 in
          let (d1, e1, k1) = merge_fresh-Decides greater u pred res d f (passes p) k kd in
          let (d2, e2, k2) =
            merge_from-Decides u d1 ps pred (λ pkt. joined u (f pkt) (passes p pkt)) k1 h.1 in
          (d2, rw (e, e1) e2, Decided-cong _ (λ pkt. joined-combined u p ps (f pkt) pkt) k2)

    -- A filter made of identity, drop, matches over other fields than the IP addresses and the
    -- tags, negations, unions and intersections of at least one policy, and dynamic filters is
    -- translated without an exception. Its diagram has no predicate but the one passed, and for
    -- any packet the predicate is at the leaf that the packet's headers lead to if and only if
    -- the evaluation of the filter returns the packet.
    pub translate-eval :
        (p : Policy) (pred : ℕ)
        → HeaderFilter p
        → (d : Diagram) × (translate greater is_dynamic_filter p pred ≡ some d)
          × Only pred d
          × ((pkt : Packet) → has pred (reach (look pkt) d) ≡ has_packet (eval p pkt))
    translate-eval p pred h = let (d, e, k) = translate-Decides p pred h in (d, e, k.only, k.says)
