-- ===== src/Classifier/Commute.antt =====
-- _commute_test: the test before a `modify` is the test of the modified packet.
use pyretic.Base.{
  true, false, true≢false, Option, none, some, ◌≡◌, refl, sym, ◌∙◌, ap, arith, Bool-cases, Bool-ext,
  inl, inr, all, any,
}
use pyretic.Packet.{
  IpField, Header, TagField, vlan_id, Field, ip, header, tag, all_fields, Value, option_eq,
  value_eq_iff, Packet, ModifyMap, modifymany, header-modifymany,
}
use pyretic.Ipaddr.{Ipaddr}
use pyretic.Match.{
  MatchMap, Pred, identity, drop, match, is_none, is_empty, accepts, accepts_at, accepts_value,
  match_eval, pred_eval, pred_eq,
}
use pyretic.Match.Meaning.{
  Untagged, UntaggedPred, match_eval_iff, match_eval-empty, any_fields-In, any_witness,
}
use pyretic.Action.{modify, emit, modify_eval}
use pyretic.Classifier.{commute_drops, commute_entry, commute_match, commute_test}

-- A `modify` of headers that are neither tagging headers nor IP addresses.
pub record PlainModify (a : ModifyMap) : Type 0 where
  pub no_tag : (t : TagField) → a (tag t) ≡ none
  pub no_ip : (f : IpField) → a (ip f) ≡ none

pub modify_eval-plain :
    (a : ModifyMap) (pkt : Packet) → PlainModify a → modify_eval a pkt ≡ emit (modifymany pkt a)
unfolding modify_eval
modify_eval-plain a pkt h = rw (h.no_tag vlan_id)

module _ ⦃i : Ipaddr⦄ where
  entry_header :
      (k m : MatchMap) (pkt pkt' : Packet) (f : Header) (v : Option (Option Value))
      (p : Option (Option Value))
      → pkt'.header (header f) ≡ elim v [ none ↦ pkt.header (header f) | some w ↦ w ]
      → commute_drops (header f) v p ≡ false
      → accepts_at k pkt (header f) (commute_entry (header f) v p) ≡ accepts_at m pkt' (header f) p
  unfolding accepts accepts_value option_eq
  entry_header k m pkt pkt' f none none e h = refl
  entry_header k m pkt pkt' f (some v) none e h = refl
  entry_header k m pkt pkt' f none (some p) e h = rw e
  entry_header k m pkt pkt' f (some none) (some none) e h = rw e
  entry_header k m pkt pkt' f (some (some v)) (some (some p)) e h =
      ground (arith, value_eq_iff v p, value_eq_iff p v)
  entry_header k m pkt pkt' f (some none) (some (some p)) e h = ground arith
  entry_header k m pkt pkt' f (some (some v)) (some none) e h = ground arith

  drops_header :
      (m : MatchMap) (pkt' : Packet) (f : Header) (w : Option Value) (v : Option (Option Value))
      (p : Option (Option Value))
      → pkt'.header (header f) ≡ elim v [ none ↦ w | some u ↦ u ]
      → commute_drops (header f) v p ≡ true
      → accepts_at m pkt' (header f) p ≡ false
  unfolding accepts accepts_value option_eq
  drops_header m pkt' f w none p e h = ground arith
  drops_header m pkt' f w (some v) none e h = ground arith
  drops_header m pkt' f w (some none) (some none) e h = ground arith
  drops_header m pkt' f w (some (some v)) (some (some p)) e h =
      ground (arith, value_eq_iff v p, value_eq_iff p v)
  drops_header m pkt' f w (some none) (some (some p)) e h = rw e
  drops_header m pkt' f w (some (some v)) (some none) e h = rw e

  entry_ip :
      (k m : MatchMap) (pkt pkt' : Packet) (f : IpField) (p : Option i.Network)
      → pkt'.header (ip f) ≡ pkt.header (ip f)
      → accepts_at k pkt (ip f) p ≡ accepts_at m pkt' (ip f) p
  unfolding accepts
  entry_ip k m pkt pkt' f none e = refl
  entry_ip k m pkt pkt' f (some n) e = rw e

  unchanged_ip :
      (a : ModifyMap) (pkt : Packet) (f : IpField)
      → PlainModify a
      → (modifymany pkt a).header (ip f) ≡ pkt.header (ip f)
  unchanged_ip a pkt f plain =
      header-modifymany pkt a (ip f)
      ∙ ap (λ (o : Option (Option Value)). elim o [ none ↦ pkt.header (ip f) | some w ↦ w ])
          (plain.no_ip f)

  -- The test that is left at a field holds of the packet exactly if the old one holds of the
  -- modified packet.
  commute_entry-accepts :
      (a : ModifyMap) (k m : MatchMap) (pkt : Packet)
      → PlainModify a
      → Untagged m
      → (f : Field) → commute_drops f (a f) (m f) ≡ false
      → accepts_at k pkt f (commute_entry f (a f) (m f)) ≡ accepts_at m (modifymany pkt a) f (m f)
  commute_entry-accepts a k m pkt plain um (ip f) h =
      ap (λ o. accepts_at k pkt (ip f) (commute_entry (ip f) o (m (ip f)))) (plain.no_ip f)
      ∙ entry_ip k m pkt (modifymany pkt a) f (m (ip f)) (unchanged_ip a pkt f plain)
  commute_entry-accepts a k m pkt plain um (header f) h =
      entry_header k m pkt (modifymany pkt a) f (a (header f)) (m (header f))
        (header-modifymany pkt a (header f)) h
  commute_entry-accepts a k m pkt plain um (tag t) h = simp (plain.no_tag t, um t)

  commute_drops-rejects :
      (a : ModifyMap) (m : MatchMap) (pkt : Packet)
      → PlainModify a
      → (f : Field) → commute_drops f (a f) (m f) ≡ true
      → accepts_at m (modifymany pkt a) f (m f) ≡ false
  commute_drops-rejects a m pkt plain (ip f) h = ground (arith, plain.no_ip f)
  commute_drops-rejects a m pkt plain (header f) h =
      drops_header m (modifymany pkt a) f (pkt.header (header f)) (a (header f)) (m (header f))
        (header-modifymany pkt a (header f)) h
  commute_drops-rejects a m pkt plain (tag t) h = ground (arith, plain.no_tag t)

  abbrev left : ModifyMap → MatchMap → MatchMap
  left a m f = commute_entry f (a f) (m f)

  match_eval-left :
      (a : ModifyMap) (m : MatchMap) (pkt : Packet)
      → PlainModify a
      → Untagged m
      → any (λ f. commute_drops f (a f) (m f)) all_fields ≡ false
      → match_eval (left a m) pkt ≡ match_eval m (modifymany pkt a)
  match_eval-left a m pkt plain um h =
      let entry : (f : Field)
          → accepts_at (left a m) pkt f (left a m f) ≡ accepts_at m (modifymany pkt a) f (m f) =
        λ f.
          commute_entry-accepts a (left a m) m pkt plain um f
            (any_fields-In (λ g. commute_drops g (a g) (m g)) h f) in
      Bool-ext (match_eval (left a m) pkt) (match_eval m (modifymany pkt a))
        (λ e.
          (match_eval_iff m (modifymany pkt a)).1
            (λ f. sym (entry f) ∙ (match_eval_iff (left a m) pkt).0 e f))
        (λ e.
          (match_eval_iff (left a m) pkt).1
            (λ f. entry f ∙ (match_eval_iff m (modifymany pkt a)).0 e f))

  match_eval-dropped :
      (a : ModifyMap) (m : MatchMap) (pkt : Packet)
      → PlainModify a
      → any (λ f. commute_drops f (a f) (m f)) all_fields ≡ true
      → match_eval m (modifymany pkt a) ≡ false
  match_eval-dropped a m pkt plain h =
      let (f, e) = any_witness (λ g. commute_drops g (a g) (m g)) all_fields h in
      let no_entry = commute_drops-rejects a m pkt plain f e in
      elim (Bool-cases (match_eval m (modifymany pkt a))) [
        | inl yes' ↦
            absurd (true≢false (sym ((match_eval_iff m (modifymany pkt a)).0 yes' f) ∙ no_entry))
        | inr no' ↦ no'
      ]

  commute_match-eval :
      (a : ModifyMap) (m : MatchMap) (pkt : Packet)
      → PlainModify a
      → Untagged m
      → pred_eval (commute_match a m) pkt ≡ match_eval m (modifymany pkt a)
  unfolding commute_match pred_eval
  commute_match-eval a m pkt plain um =
      elim (Bool-cases (any (λ f. commute_drops f (a f) (m f)) all_fields)) [
        | inl h ↦ rw h (sym (match_eval-dropped a m pkt plain h))
        | inr h ↦ rw h (elim (Bool-cases (all (λ f. is_none (left a m f)) all_fields)) [
          | inl e ↦ rw e (
              sym (match_eval-empty (left a m) pkt (unfold is_empty in e))
              ∙ match_eval-left a m pkt plain um h)
          | inr e ↦ rw e (match_eval-left a m pkt plain um h)
        ])
      ]

  -- For a modification that sets no IP address and no tagging header, a packet passes the commuted
  -- test exactly if the modified packet passes the test.
  pub commute_test-eval :
      (a : ModifyMap) (p : Pred) (pkt : Packet)
      → PlainModify a
      → UntaggedPred p
      → pred_eval (commute_test (modify a) p) pkt ≡ pred_eval p (modifymany pkt a)
  unfolding commute_test pred_eval pred_eq
  commute_test-eval a identity pkt plain up = refl
  commute_test-eval a drop pkt plain up = refl
  commute_test-eval a (match m) pkt plain up = elim (Bool-cases (is_empty m)) [
    | inl e ↦ rw e (sym (match_eval-empty m (modifymany pkt a) e))
    | inr e ↦ rw e (commute_match-eval a m pkt plain up)
  ]

  left-Untagged : (a : ModifyMap) (m : MatchMap) → Untagged m → PlainModify a → Untagged (left a m)
  left-Untagged a m um plain t = simp (plain.no_tag t, um t)

  pub commute_test-UntaggedPred :
      (a : ModifyMap) (p : Pred)
      → PlainModify a
      → UntaggedPred p
      → UntaggedPred (commute_test (modify a) p)
  unfolding commute_test commute_match
  commute_test-UntaggedPred a identity plain up = tt
  commute_test-UntaggedPred a drop plain up = tt
  commute_test-UntaggedPred a (match m) plain up = elim (Bool-cases (pred_eq (match m) identity)) [
    | inl e ↦ rw e tt
    | inr e ↦ rw e (elim (Bool-cases (any (λ f. commute_drops f (a f) (m f)) all_fields)) [
      | inl h ↦ rw h tt
      | inr h ↦ rw h (elim (Bool-cases (all (λ f. is_none (left a m f)) all_fields)) [
        | inl k ↦ rw k tt
        | inr k ↦ rw k (left-Untagged a m up plain)
      ])
    ])
  ]
