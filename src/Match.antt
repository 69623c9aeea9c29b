-- ===== src/Match.antt =====
-- core/language.py, classes match and _match: the dictionary, evaluation, intersection and cover.
pub mod Meaning
pub mod Intersect
pub mod Cover
use pyretic.Base.{
  ℕ, ◌*◌, ◌-◌, ◌^◌, bit_and, bit_or, ◌==◌, Bool, true, false, ◌&&◌, ◌||◌, not, Option, none, some,
  all, any, if◌then◌else◌,
}
use pyretic.Packet.{
  IpField, Header, TagField, vlan_id, vlan_pcp, vlan_offset, vlan_nbits, vlan_total_stages, Field,
  ip, header, tag, all_fields, Value, num, value_eq, option_eq, Packet,
}
use pyretic.Ipaddr.{Ipaddr}

-- mask = ((1 << nbits) - 1) << offset
unfoldable pub vlan_mask : ℕ → ℕ → ℕ
vlan_mask offset nbits = (2 ^ nbits - 1) * 2 ^ offset

abbrev pub num? : Option (Option Value) → Option ℕ
num? (some (some (num n))) = some n
num? _ = none

abbrev pub is_none {ℓ} : {A : Type ℓ} → Option A → Bool
is_none none = true
is_none (some _) = false

module _ ⦃i : Ipaddr⦄ where
  open i use {Network, Address, ipv4_address, contains, subnet, network_eq}

  -- `__init__` makes the patterns of srcip and dstip networks; any other is a value or `None`.
  abbrev pub PatternOf : Field → Type 0
  PatternOf (ip _) = Network
  PatternOf (header _) = Option Value
  PatternOf (tag _) = Option Value

  -- The frozendict `map` of a match.
  abbrev pub MatchMap : Type 0
  MatchMap = (f : Field) → Option (PatternOf f)

  -- What the conditions of the classifier compare: `identity`, `drop`, or a match.
  pub data Pred : Type 0 where
    identity drop : Pred
    match : MatchMap → Pred

  -- `None` as a pattern asks that the field is missing.
  unfoldable pub accepts_value : Option Value → Option Value → Bool
  accepts_value none none = true
  accepts_value (some p) (some v) = value_eq p v
  accepts_value _ _ = false

  abbrev contains? : Network → Option Address → Bool
  contains? n none = false
  contains? n (some a) = contains n a

  unfoldable pub accepts_ip : Network → Option Value → Bool
  accepts_ip n none = false
  accepts_ip n (some v) = contains? n (ipv4_address v)

  -- The masked comparison of the vlan_id branch; `none` where Python raises.
  unfoldable pub vlan_test : Option ℕ → Option ℕ → Option ℕ → Option ℕ → Option ℕ → Option Bool
  unfolding vlan_mask
  vlan_test (some vid) (some pcp) (some offset) (some nbits) (some v) = some (
      bit_and (bit_or vid (pcp * 2 ^ 12)) (vlan_mask offset nbits)
      == bit_and v (vlan_mask offset nbits))
  vlan_test _ _ _ _ _ = none

  abbrev caught : Option Bool → Bool → Bool
  caught none b = b
  caught (some b) _ = b

  -- One round of the loop of _match.eval on a tagging field: does it go on? The handler goes on for
  -- a helper field and for the pattern `None`.
  unfoldable pub accepts_tag : MatchMap → Packet → TagField → Option Value → Bool
  unfolding vlan_test
  accepts_tag m pkt vlan_id p =
      caught
        (vlan_test (num? (some p)) (num? (m (tag vlan_pcp))) (num? (m (tag vlan_offset)))
          (num? (m (tag vlan_nbits))) (num? (some (pkt.header (tag vlan_id)))))
        (is_none p)
  accepts_tag m pkt vlan_pcp p =
      if is_none (pkt.header (tag vlan_pcp)) || is_none (m (tag vlan_id)) then is_none p else true
  accepts_tag m pkt vlan_total_stages p =
      if is_none (pkt.header (tag vlan_total_stages))
      then true
      else accepts_value p (pkt.header (tag vlan_total_stages))
  accepts_tag m pkt _ p = true

  unfoldable pub accepts : MatchMap → Packet → (f : Field) → PatternOf f → Bool
  unfolding accepts_value accepts_ip accepts_tag
  accepts m pkt (ip f) n = accepts_ip n (pkt.header (ip f))
  accepts m pkt (header f) p = accepts_value p (pkt.header (header f))
  accepts m pkt (tag f) p = accepts_tag m pkt f p

  abbrev pub accepts_at : MatchMap → Packet → (f : Field) → Option (PatternOf f) → Bool
  accepts_at m pkt f none = true
  accepts_at m pkt f (some p) = accepts m pkt f p

  -- _match.eval: is the result the packet itself? Otherwise it is the empty set.
  unfoldable pub match_eval : MatchMap → Packet → Bool
  match_eval m pkt = all (λ f. accepts_at m pkt f (m f)) all_fields

  unfoldable pub pred_eval : Pred → Packet → Bool
  pred_eval identity pkt = true
  pred_eval drop pkt = false
  pred_eval (match m) pkt = match_eval m pkt

  unfoldable pub is_empty : MatchMap → Bool
  is_empty m = all (λ f. is_none (m f)) all_fields

  abbrev pub pattern_eq : (f : Field) → PatternOf f → PatternOf f → Bool
  pattern_eq (ip _) n m = network_eq n m
  pattern_eq (header _) p q = option_eq p q
  pattern_eq (tag _) p q = option_eq p q

  abbrev pub same_at : (f : Field) → Option (PatternOf f) → Option (PatternOf f) → Bool
  same_at f none none = true
  same_at f (some p) (some q) = pattern_eq f p q
  same_at f _ _ = false

  -- frozendict.__eq__
  unfoldable pub map_eq : MatchMap → MatchMap → Bool
  map_eq m n = all (λ f. same_at f (m f) (n f)) all_fields

  -- p == q, for IdentityClass, drop and match.
  unfoldable pub pred_eq : Pred → Pred → Bool
  pred_eq identity identity = true
  pred_eq identity (match n) = is_empty n
  pred_eq drop drop = true
  pred_eq (match m) identity = is_empty m
  pred_eq (match m) (match n) = map_eq m n
  pred_eq _ _ = false

  -- _intersect_ip
  unfoldable pub intersect_ip : Network → Network → Option Network
  intersect_ip a b = if subnet a b then some a else if subnet b a then some b else none

  -- What the loop over the shared fields returns `drop` for.
  abbrev pub clash : (f : Field) → Option (PatternOf f) → Option (PatternOf f) → Bool
  clash (ip _) (some a) (some b) = is_none (intersect_ip a b)
  clash (header _) (some p) (some q) = not (option_eq p q)
  clash (tag _) (some p) (some q) = not (option_eq p q)
  clash _ _ _ = false

  -- The entry of the updated dictionary `d`.
  abbrev pub merge :
      (f : Field) → Option (PatternOf f) → Option (PatternOf f) → Option (PatternOf f)
  merge f p none = p
  merge f none (some q) = some q
  merge (ip _) (some a) (some b) = intersect_ip a b
  merge (header _) (some p) (some q) = some q
  merge (tag _) (some p) (some q) = some q

  unfoldable pub intersect_match : MatchMap → MatchMap → Pred
  intersect_match m n =
      if any (λ f. clash f (m f) (n f)) all_fields then drop else match (λ f. merge f (m f) (n f))

  unfoldable pub intersect : Pred → Pred → Pred
  intersect identity q = q
  intersect drop q = drop
  intersect (match m) identity = match m
  intersect (match m) drop = drop
  intersect (match m) (match n) =
      if pred_eq (match n) identity then match m else intersect_match m n

  -- map_check of one item: is the entry of the second dictionary as specific?
  abbrev pub covers_at : (f : Field) → Option (PatternOf f) → Option (PatternOf f) → Bool
  covers_at f none q = true
  covers_at f (some p) none = false
  covers_at (ip _) (some a) (some b) = network_eq a b || subnet b a
  covers_at (header _) (some p) (some q) = option_eq p q
  covers_at (tag _) (some p) (some q) = option_eq p q

  -- `other` has no attribute `map` if it is `identity` or `drop`.
  unfoldable pub covers : Pred → Pred → Bool
  covers identity q = true
  covers drop q = false
  covers (match m) identity = is_empty m
  covers (match m) drop = true
  covers (match m) (match n) = all (λ f. covers_at f (m f) (n f)) all_fields
