-- ===== src/Packet.antt =====
-- core/packet.py, class Packet, and the header names of core/language.py.
pub mod Equality
use pyretic.Base.{
  ℕ, ◌==◌, String, ◌≡◌, refl, ◌↔◌, Bool, true, false, Option, none, some, List, [], ◌∷◌, arith, In,
  inl, inr, if◌then◌else◌,
}
use text.Mathlib.Text.{◌==◌ as str_eq}
use text.Mathlib.TextEquality.{eq_iff}

-- The two fields whose patterns are IPv4 networks.
pub data IpField : Type 0 where
  srcip dstip : IpField

-- The other basic headers, the location headers and the content headers.
pub data Header : Type 0 where
  srcmac dstmac tos srcport dstport ethtype protocol switch port raw header_len payload_len : Header

-- The tagging headers: the first two are native, the other three helpers.
pub data TagField : Type 0 where
  vlan_id vlan_pcp vlan_offset vlan_nbits vlan_total_stages : TagField

pub data Field : Type 0 where
  ip : IpField → Field
  header : Header → Field
  tag : TagField → Field

unfoldable pub all_fields : List Field
all_fields =
    ip srcip
    ∷ ip dstip
    ∷ header srcmac
    ∷ header dstmac
    ∷ header tos
    ∷ header srcport
    ∷ header dstport
    ∷ header ethtype
    ∷ header protocol
    ∷ header switch
    ∷ header port
    ∷ header raw
    ∷ header header_len
    ∷ header payload_len
    ∷ tag vlan_id
    ∷ tag vlan_pcp
    ∷ tag vlan_offset
    ∷ tag vlan_nbits
    ∷ tag vlan_total_stages
    ∷ []

pub In-all_fields : (f : Field) → In f all_fields
unfolding all_fields
In-all_fields (ip srcip) = inl refl
In-all_fields (ip dstip) = inr (inl refl)
In-all_fields (header srcmac) = inr (inr (inl refl))
In-all_fields (header dstmac) = inr (inr (inr (inl refl)))
In-all_fields (header tos) = inr (inr (inr (inr (inl refl))))
In-all_fields (header srcport) = inr (inr (inr (inr (inr (inl refl)))))
In-all_fields (header dstport) = inr (inr (inr (inr (inr (inr (inl refl))))))
In-all_fields (header ethtype) = inr (inr (inr (inr (inr (inr (inr (inl refl)))))))
In-all_fields (header protocol) = inr (inr (inr (inr (inr (inr (inr (inr (inl refl))))))))
In-all_fields (header switch) = inr (inr (inr (inr (inr (inr (inr (inr (inr (inl refl)))))))))
In-all_fields (header port) = inr (inr (inr (inr (inr (inr (inr (inr (inr (inr (inl refl))))))))))
In-all_fields (header raw) =
    inr (inr (inr (inr (inr (inr (inr (inr (inr (inr (inr (inl refl)))))))))))
In-all_fields (header header_len) =
    inr (inr (inr (inr (inr (inr (inr (inr (inr (inr (inr (inr (inl refl))))))))))))
In-all_fields (header payload_len) =
    inr (inr (inr (inr (inr (inr (inr (inr (inr (inr (inr (inr (inr (inl refl)))))))))))))
In-all_fields (tag vlan_id) =
    inr (inr (inr (inr (inr (inr (inr (inr (inr (inr (inr (inr (inr (inr (inl refl))))))))))))))
In-all_fields (tag vlan_pcp) =
    inr
      (inr (inr (inr (inr (inr (inr (inr (inr (inr (inr (inr (inr (inr (inr (inl refl)))))))))))))))
In-all_fields (tag vlan_offset) = inr (
    inr (
      inr (inr (inr (inr (inr (inr (inr (inr (inr (inr (inr (inr (inr (inr (inl refl))))))))))))))))
In-all_fields (tag vlan_nbits) = inr (
    inr (
      inr (
        inr (
          inr (inr (inr (inr (inr (inr (inr (inr (inr (inr (inr (inr (inr (inl refl)))))))))))))))))
In-all_fields (tag vlan_total_stages) = inr (
    inr (
      inr (
        inr (
          inr (
            inr (
              inr (inr (inr (inr (inr (inr (inr (inr (inr (inr (inr (inr (inl refl))))))))))))))))))

-- The values that headers carry.
pub data Value : Type 0 where
  num : ℕ → Value
  str : String → Value

unfoldable pub value_eq : Value → Value → Bool
value_eq (num a) (num b) = a == b
value_eq (str s) (str t) = str_eq s t
value_eq _ _ = false

pub value_eq_iff : (v w : Value) → (value_eq v w ≡ true) ↔ (v ≡ w)
unfolding value_eq
value_eq_iff (num a) (num b) = ground arith
value_eq_iff (str s) (str t) = ground (arith, eq_iff s t)
value_eq_iff _ _ = ground arith

-- A value or Python's `None`.
unfoldable pub option_eq : Option Value → Option Value → Bool
option_eq none none = true
option_eq (some v) (some w) = value_eq v w
option_eq _ _ = false

pub option_eq_iff : (v w : Option Value) → (option_eq v w ≡ true) ↔ (v ≡ w)
unfolding option_eq
option_eq_iff none none = ground arith
option_eq_iff (some v) (some w) = ground (arith, value_eq_iff v w)
option_eq_iff _ _ = ground arith

-- The frozendict `header`: what a missing key gives is `none`.
pub record Packet : Type 0 where
  pub header : Field → Option Value

-- The dictionary of `modify`: the new value, where `none` stands for Python's `None`.
abbrev pub ModifyMap : Type 0
ModifyMap = Field → Option (Option Value)

-- `add` and `delete`, the two halves into which the loop sorts the dictionary.
abbrev add : ModifyMap → Field → Option Value
add d f = elim (d f) [ none ↦ none | some v ↦ v ]

abbrev delete : ModifyMap → Field → Bool
delete d f = elim (d f) [ none ↦ false | some v ↦ elim v [ none ↦ true | some _ ↦ false ] ]

unfoldable pub update : (Field → Option Value) → (Field → Option Value) → Field → Option Value
update old new f = elim (new f) [ none ↦ old f | some v ↦ some v ]

unfoldable pub remove : (Field → Option Value) → (Field → Bool) → Field → Option Value
remove d ks f = if ks f then none else d f

-- Packet.modifymany
unfoldable pub modifymany : Packet → ModifyMap → Packet
unfolding update remove
modifymany pkt d = record { header = remove (update pkt.header (add d)) (delete d) }

-- A field of a modified packet has the new value where the modification mentions it, is missing
-- where the new value is None, and is unchanged elsewhere.
pub header-modifymany :
    (pkt : Packet) (d : ModifyMap) (f : Field)
    → (modifymany pkt d).header f ≡ elim (d f) [ none ↦ pkt.header f | some v ↦ v ]
unfolding modifymany
header-modifymany pkt d f = ground arith
