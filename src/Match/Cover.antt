-- ===== src/Match/Cover.antt =====
-- core/language.py, match.covers: what a match covers it lets pass.
use pyretic.Base.{true, Option, none, some, ◌≡◌, refl, inl, inr, arith, Option-cases}
use pyretic.Packet.{IpField, Header, Field, ip, header, tag, Packet, Value, option_eq_iff}
use pyretic.Ipaddr.{Ipaddr}
use pyretic.Match.{
  MatchMap, Pred, identity, drop, match, accepts, accepts_at, pred_eval, covers_at, covers,
}
use pyretic.Match.Meaning.{Untagged, UntaggedPred, match_eval_iff, all_fields-In, match_eval-empty}

module _ ⦃i : Ipaddr⦄ where
  open i use {network_eq_iff, subnet_contains}

  covers_at-accepts_ip :
      (m n : MatchMap) (pkt : Packet) (f : IpField) (p q : Option i.Network)
      → covers_at (ip f) p q ≡ true
      → accepts_at n pkt (ip f) q ≡ true
      → accepts_at m pkt (ip f) p ≡ true
  unfolding accepts
  covers_at-accepts_ip m n pkt f none q h k = refl
  covers_at-accepts_ip m n pkt f (some p) none h k = ground arith
  covers_at-accepts_ip m n pkt f (some p) (some q) h k = elim (Option-cases (pkt.header (ip f))) [
    | inl e ↦ ground arith
    | inr (v, e) ↦ elim (Option-cases (i.ipv4_address v)) [
      | inl e' ↦ ground arith
      | inr (x, e') ↦ ground (arith, subnet_contains q p x, network_eq_iff p q)
    ]
  ]

  covers_at-accepts_header :
      (m n : MatchMap) (pkt : Packet) (f : Header) (p q : Option (Option Value))
      → covers_at (header f) p q ≡ true
      → accepts_at n pkt (header f) q ≡ true
      → accepts_at m pkt (header f) p ≡ true
  unfolding accepts
  covers_at-accepts_header m n pkt f none q h k = refl
  covers_at-accepts_header m n pkt f (some p) none h k = ground arith
  covers_at-accepts_header m n pkt f (some p) (some q) h k = ground (arith, option_eq_iff p q)

  covers_at-accepts :
      (m n : MatchMap) (pkt : Packet)
      → Untagged m
      → (f : Field) → covers_at f (m f) (n f) ≡ true
      → accepts_at n pkt f (n f) ≡ true
      → accepts_at m pkt f (m f) ≡ true
  covers_at-accepts m n pkt um (ip f) h k = covers_at-accepts_ip m n pkt f (m (ip f)) (n (ip f)) h k
  covers_at-accepts m n pkt um (header f) h k =
      covers_at-accepts_header m n pkt f (m (header f)) (n (header f)) h k
  covers_at-accepts m n pkt um (tag t) h k = rw (um t)

  -- If a predicate without tagging headers covers another one, it lets pass what the other one
  -- lets pass.
  pub covers_sound :
      (p q : Pred) (pkt : Packet)
      → UntaggedPred p
      → covers p q ≡ true
      → pred_eval q pkt ≡ true
      → pred_eval p pkt ≡ true
  unfolding covers pred_eval
  covers_sound identity q pkt up h k = refl
  covers_sound drop q pkt up h k = ground arith
  covers_sound (match m) identity pkt up h k = match_eval-empty m pkt h
  covers_sound (match m) drop pkt up h k = ground arith
  covers_sound (match m) (match n) pkt up h k = (match_eval_iff m pkt).1 (λ f.
      covers_at-accepts m n pkt up f (all_fields-In (λ g. covers_at g (m g) (n g)) h f)
        ((match_eval_iff n pkt).0 k f))
