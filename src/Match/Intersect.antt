-- ===== src/Match/Intersect.antt =====
-- core/language.py, match.intersect: a packet passes the intersection of two matches if it passes
-- both.
use pyretic.Base.{
  Bool, true, false, true≢false, and-true, sym, ◌∙◌, ◌&&◌, Option, none, some, ◌≡◌, refl, inl, inr,
  any, arith, Bool-cases, Option-cases, Bool-ext,
}
use pyretic.Packet.{
  IpField, Header, Field, ip, header, tag, all_fields, Packet, Value, value_eq_iff, option_eq,
  option_eq_iff,
}
use pyretic.Ipaddr.{Ipaddr}
use pyretic.Match.{
  MatchMap, Pred, identity, drop, match, accepts, accepts_at, accepts_value, match_eval, pred_eval,
  is_empty, pred_eq, intersect_ip, clash, merge, intersect_match, intersect,
}
use pyretic.Match.Meaning.{
  Untagged, UntaggedPred, match_eval_iff, any_fields-In, any_witness, match_eval-empty,
}

module _ ⦃i : Ipaddr⦄ where
  open i use {subnet, contains, network_eq, network_eq_iff, subnet_refl, subnet_contains, nested}

  abbrev contains_in : Option i.Network → i.Address → Bool
  contains_in none x = false
  contains_in (some n) x = contains n x

  -- A network that both hold has its place in the smaller of the two.
  intersect_ip_contains :
      (a b : i.Network) (x : i.Address)
      → contains_in (intersect_ip a b) x ≡ (contains a x && contains b x)
  unfolding intersect_ip
  intersect_ip_contains a b x = elim (Bool-cases (subnet a b)) [
    | inl ab ↦ ground (arith, subnet_contains a b x)
    | inr ab ↦ elim (Bool-cases (subnet b a)) [
      | inl ba ↦ ground (arith, subnet_contains b a x)
      | inr ba ↦ ground (arith, nested a b x)
    ]
  ]

  merge-ip :
      (m n k : MatchMap) (pkt : Packet) (f : IpField) (p q : Option i.Network)
      → clash (ip f) p q ≡ false
      → accepts_at k pkt (ip f) (merge (ip f) p q)
        ≡ (accepts_at m pkt (ip f) p && accepts_at n pkt (ip f) q)
  unfolding accepts intersect_ip
  merge-ip m n k pkt f none none h = refl
  merge-ip m n k pkt f none (some q) h = refl
  merge-ip m n k pkt f (some p) none h = ground arith
  merge-ip m n k pkt f (some p) (some q) h = elim (Option-cases (pkt.header (ip f))) [
    | inl e ↦ ground arith
    | inr (v, e) ↦ elim (Option-cases (i.ipv4_address v)) [
      | inl e' ↦ ground arith
      | inr (x, e') ↦ ground (arith, intersect_ip_contains p q x)
    ]
  ]

  merge-header :
      (m n k : MatchMap) (pkt : Packet) (f : Header) (p q : Option (Option Value))
      → clash (header f) p q ≡ false
      → accepts_at k pkt (header f) (merge (header f) p q)
        ≡ (accepts_at m pkt (header f) p && accepts_at n pkt (header f) q)
  unfolding accepts
  merge-header m n k pkt f none none h = refl
  merge-header m n k pkt f none (some q) h = refl
  merge-header m n k pkt f (some p) none h = ground arith
  merge-header m n k pkt f (some p) (some q) h = ground (arith, option_eq_iff p q)

  clash-rejects_ip :
      (m n : MatchMap) (pkt : Packet) (f : IpField) (p q : Option i.Network)
      → clash (ip f) p q ≡ true
      → (accepts_at m pkt (ip f) p && accepts_at n pkt (ip f) q) ≡ false
  unfolding accepts
  clash-rejects_ip m n pkt f none none h = ground arith
  clash-rejects_ip m n pkt f none (some q) h = ground arith
  clash-rejects_ip m n pkt f (some p) none h = ground arith
  clash-rejects_ip m n pkt f (some p) (some q) h = elim (Option-cases (pkt.header (ip f))) [
    | inl e ↦ ground arith
    | inr (v, e) ↦ elim (Option-cases (i.ipv4_address v)) [
      | inl e' ↦ ground arith
      | inr (x, e') ↦ ground (arith, intersect_ip_contains p q x)
    ]
  ]

  accepts_value_unique :
      (p q v : Option Value)
      → accepts_value p v ≡ true
      → accepts_value q v ≡ true
      → option_eq p q ≡ true
  unfolding accepts_value option_eq
  accepts_value_unique none none none h k = refl
  accepts_value_unique (some p) (some q) (some v) h k =
      ground (arith, value_eq_iff p v, value_eq_iff q v, value_eq_iff p q)
  accepts_value_unique _ _ _ h k = ground arith

  clash-rejects_header :
      (m n : MatchMap) (pkt : Packet) (f : Header) (p q : Option (Option Value))
      → clash (header f) p q ≡ true
      → (accepts_at m pkt (header f) p && accepts_at n pkt (header f) q) ≡ false
  unfolding accepts
  clash-rejects_header m n pkt f none none h = ground arith
  clash-rejects_header m n pkt f none (some q) h = ground arith
  clash-rejects_header m n pkt f (some p) none h = ground arith
  clash-rejects_header m n pkt f (some p) (some q) h =
      ground (arith, accepts_value_unique p q (pkt.header (header f)))

  -- An entry of the merged dictionary asks what both entries ask.
  accepts_at-merge :
      (m n k : MatchMap) (pkt : Packet)
      → Untagged m
      → Untagged n
      → (f : Field) → clash f (m f) (n f) ≡ false
      → accepts_at k pkt f (merge f (m f) (n f))
        ≡ (accepts_at m pkt f (m f) && accepts_at n pkt f (n f))
  accepts_at-merge m n k pkt um un (ip f) h = merge-ip m n k pkt f (m (ip f)) (n (ip f)) h
  accepts_at-merge m n k pkt um un (header f) h =
      merge-header m n k pkt f (m (header f)) (n (header f)) h
  accepts_at-merge m n k pkt um un (tag t) h = simp (um t, un t)

  clash-rejects :
      (m n : MatchMap) (pkt : Packet)
      → Untagged m
      → Untagged n
      → (f : Field) → clash f (m f) (n f) ≡ true
      → (accepts_at m pkt f (m f) && accepts_at n pkt f (n f)) ≡ false
  clash-rejects m n pkt um un (ip f) h = clash-rejects_ip m n pkt f (m (ip f)) (n (ip f)) h
  clash-rejects m n pkt um un (header f) h =
      clash-rejects_header m n pkt f (m (header f)) (n (header f)) h
  clash-rejects m n pkt um un (tag t) h = ground (arith, um t, un t)

  merged_entry :
      (m n : MatchMap) (pkt : Packet)
      → Untagged m
      → Untagged n
      → any (λ f. clash f (m f) (n f)) all_fields ≡ false
      → (f : Field)
      → accepts_at (λ g. merge g (m g) (n g)) pkt f (merge f (m f) (n f))
        ≡ (accepts_at m pkt f (m f) && accepts_at n pkt f (n f))
  merged_entry m n pkt um un h f =
      accepts_at-merge m n (λ g. merge g (m g) (n g)) pkt um un f
        (any_fields-In (λ g. clash g (m g) (n g)) h f)

  match_eval-merge :
      (m n : MatchMap) (pkt : Packet)
      → Untagged m
      → Untagged n
      → any (λ f. clash f (m f) (n f)) all_fields ≡ false
      → match_eval (λ f. merge f (m f) (n f)) pkt ≡ (match_eval m pkt && match_eval n pkt)
  match_eval-merge m n pkt um un h =
      Bool-ext (match_eval (λ f. merge f (m f) (n f)) pkt) (match_eval m pkt && match_eval n pkt)
        (λ e.
          let both : (f : Field) → (accepts_at m pkt f (m f) && accepts_at n pkt f (n f)) ≡ true =
            λ f.
              sym (merged_entry m n pkt um un h f)
              ∙ (match_eval_iff (λ g. merge g (m g) (n g)) pkt).0 e f in
          (and-true _ _).1 (
            (match_eval_iff m pkt).1 (λ f. ((and-true _ _).0 (both f)).0),
            (match_eval_iff n pkt).1 (λ f. ((and-true _ _).0 (both f)).1),
          ))
        (λ e.
          let (l, r) = (and-true (match_eval m pkt) (match_eval n pkt)).0 e in
          (match_eval_iff (λ g. merge g (m g) (n g)) pkt).1 (λ f.
            merged_entry m n pkt um un h f
            ∙ (and-true _ _).1 ((match_eval_iff m pkt).0 l f, (match_eval_iff n pkt).0 r f)))

  match_eval-clash :
      (m n : MatchMap) (pkt : Packet)
      → Untagged m
      → Untagged n
      → any (λ f. clash f (m f) (n f)) all_fields ≡ true
      → (match_eval m pkt && match_eval n pkt) ≡ false
  match_eval-clash m n pkt um un h =
      let (f, e) = any_witness (λ f. clash f (m f) (n f)) all_fields h in
      let no_entry = clash-rejects m n pkt um un f e in
      elim (Bool-cases (match_eval m pkt && match_eval n pkt)) [
        | inl both ↦
            let (l, r) = (and-true (match_eval m pkt) (match_eval n pkt)).0 both in
            absurd (
              true≢false (
                sym ((and-true _ _).1 ((match_eval_iff m pkt).0 l f, (match_eval_iff n pkt).0 r f))
                ∙ no_entry))
        | inr none_or_one ↦ none_or_one
      ]

  intersect_match-eval :
      (m n : MatchMap) (pkt : Packet)
      → Untagged m
      → Untagged n
      → pred_eval (intersect_match m n) pkt ≡ (match_eval m pkt && match_eval n pkt)
  unfolding intersect_match pred_eval
  intersect_match-eval m n pkt um un =
      elim (Bool-cases (any (λ f. clash f (m f) (n f)) all_fields)) [
        | inl h ↦ rw h (sym (match_eval-clash m n pkt um un h))
        | inr h ↦ rw h (match_eval-merge m n pkt um un h)
      ]

  -- A packet passes the intersection of two predicates without tagging headers exactly if it
  -- passes both.
  pub intersect-eval :
      (p q : Pred) (pkt : Packet)
      → UntaggedPred p
      → UntaggedPred q
      → pred_eval (intersect p q) pkt ≡ (pred_eval p pkt && pred_eval q pkt)
  unfolding intersect pred_eq pred_eval
  intersect-eval identity q pkt up uq = refl
  intersect-eval drop q pkt up uq = refl
  intersect-eval (match m) identity pkt up uq = ground arith
  intersect-eval (match m) drop pkt up uq = ground arith
  intersect-eval (match m) (match n) pkt up uq = elim (Bool-cases (is_empty n)) [
    | inl e ↦ ground (arith, match_eval-empty n pkt e)
    | inr e ↦ ground (arith, intersect_match-eval m n pkt up uq)
  ]

  merge-Untagged : (m n : MatchMap) → Untagged m → Untagged n → Untagged (λ f. merge f (m f) (n f))
  merge-Untagged m n um un t = simp (um t, un t)

  pub intersect-UntaggedPred :
      (p q : Pred) → UntaggedPred p → UntaggedPred q → UntaggedPred (intersect p q)
  unfolding intersect intersect_match pred_eq
  intersect-UntaggedPred identity q up uq = uq
  intersect-UntaggedPred drop q up uq = tt
  intersect-UntaggedPred (match m) identity up uq = up
  intersect-UntaggedPred (match m) drop up uq = tt
  intersect-UntaggedPred (match m) (match n) up uq = elim (Bool-cases (is_empty n)) [
    | inl e ↦ rw e up
    | inr e ↦ rw e (elim (Bool-cases (any (λ f. clash f (m f) (n f)) all_fields)) [
      | inl h ↦ rw h tt
      | inr h ↦ rw h (merge-Untagged m n up uq)
    ])
  ]
