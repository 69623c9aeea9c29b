-- ===== src/Packet/Equality.antt =====
-- Equality of header names, which core/packet.py compares as strings.
use pyretic.Base.{ℕ, zero, suc, ◌==◌, ==_iff, ◌≡◌, refl, ◌↔◌, sym, ◌∙◌, ap, true, List, [], ◌∷◌, Eq}
use pyretic.Packet.{
  Field, ip, header, tag, srcip, dstip, srcmac, dstmac, tos, srcport, dstport, ethtype, protocol,
  switch, port, raw, header_len, payload_len, vlan_id, vlan_pcp, vlan_offset, vlan_nbits,
  vlan_total_stages, all_fields,
}

abbrev pub field_index : Field → ℕ
field_index (ip srcip) = 0
field_index (ip dstip) = 1
field_index (header srcmac) = 2
field_index (header dstmac) = 3
field_index (header tos) = 4
field_index (header srcport) = 5
field_index (header dstport) = 6
field_index (header ethtype) = 7
field_index (header protocol) = 8
field_index (header switch) = 9
field_index (header port) = 10
field_index (header raw) = 11
field_index (header header_len) = 12
field_index (header payload_len) = 13
field_index (tag vlan_id) = 14
field_index (tag vlan_pcp) = 15
field_index (tag vlan_offset) = 16
field_index (tag vlan_nbits) = 17
field_index (tag vlan_total_stages) = 18

abbrev field_at : List Field → ℕ → Field
field_at [] n = ip srcip
field_at (f ∷ fs) zero = f
field_at (f ∷ fs) (suc n) = field_at fs n

field_at-field_index : (f : Field) → field_at all_fields (field_index f) ≡ f
unfolding all_fields
field_at-field_index (ip srcip) = refl
field_at-field_index (ip dstip) = refl
field_at-field_index (header srcmac) = refl
field_at-field_index (header dstmac) = refl
field_at-field_index (header tos) = refl
field_at-field_index (header srcport) = refl
field_at-field_index (header dstport) = refl
field_at-field_index (header ethtype) = refl
field_at-field_index (header protocol) = refl
field_at-field_index (header switch) = refl
field_at-field_index (header port) = refl
field_at-field_index (header raw) = refl
field_at-field_index (header header_len) = refl
field_at-field_index (header payload_len) = refl
field_at-field_index (tag vlan_id) = refl
field_at-field_index (tag vlan_pcp) = refl
field_at-field_index (tag vlan_offset) = refl
field_at-field_index (tag vlan_nbits) = refl
field_at-field_index (tag vlan_total_stages) = refl

pub field_eq_iff : (f g : Field) → ((field_index f == field_index g) ≡ true) ↔ (f ≡ g)
field_eq_iff f g = (
  λ h.
      sym (field_at-field_index f)
      ∙ ap (field_at all_fields) ((==_iff (field_index f) (field_index g)).0 h)
      ∙ field_at-field_index g,
  λ e. (==_iff (field_index f) (field_index g)).1 (ap field_index e),
)

instance abbrev pub field_equality : Eq Field
field_equality = record { eq = λ f g. field_index f == field_index g; eq_iff = field_eq_iff }
