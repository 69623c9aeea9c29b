-- ===== src/ExtendedValues.antt =====
-- core/runtime.py, encode_extended_values and decode_extended_values: the table of VLAN tags that
-- stand for the values of virtual fields.
pub mod RoundTrip
use pyretic.Base.{
  ℕ, suc, ◌==◌, Bool, ◌&&◌, Option, none, some, List, [], ◌∷◌, length, bit_and, if◌then◌else◌, Eq,
}

-- vid = r & 0b000111111111111 and pcp = r & 0b111000000000000
unfoldable pub vlan_code : ℕ → ℕ × ℕ
vlan_code r = (bit_and r 0xfff, bit_and r 0x7000)

abbrev pub code_eq : ℕ × ℕ → ℕ × ℕ → Bool
code_eq a b = a.0 == b.0 && a.1 == b.1

-- The two dictionaries, the last entry first.
pub record ValuesDb (E : Type 0) : Type 0 where
  pub extended_values_to_vlan : List (E × (ℕ × ℕ))
  pub vlan_to_extended_values : List ((ℕ × ℕ) × E)

module _ {E : Type 0} ⦃e : Eq E⦄ where
  unfoldable pub get_vlan : E → List (E × (ℕ × ℕ)) → Option (ℕ × ℕ)
  get_vlan x [] = none
  get_vlan x (p ∷ ps) = if e.eq x p.0 then some p.1 else get_vlan x ps

  unfoldable pub get_values : ℕ × ℕ → List ((ℕ × ℕ) × E) → Option E
  get_values c [] = none
  get_values c (p ∷ ps) = if code_eq c p.0 then some p.1 else get_values c ps

  abbrev pub encode_with : E → ValuesDb E → Option (ℕ × ℕ) → (ℕ × ℕ) × ValuesDb E
  encode_with x db (some vlan) = (vlan, db)
  encode_with x db none =
      let vlan = vlan_code (suc (length db.extended_values_to_vlan)) in
      (
        vlan,
        record {
          extended_values_to_vlan = (x, vlan) ∷ db.extended_values_to_vlan;
          vlan_to_extended_values = (vlan, x) ∷ db.vlan_to_extended_values;
        },
      )

  unfoldable pub encode_extended_values : E → ValuesDb E → (ℕ × ℕ) × ValuesDb E
  unfolding get_vlan vlan_code
  encode_extended_values x db = encode_with x db (get_vlan x db.extended_values_to_vlan)

  -- `none` is the failed assertion.
  unfoldable pub decode_extended_values : ℕ → ℕ → ValuesDb E → Option E
  unfolding get_values
  decode_extended_values vid pcp db = get_values (vid, pcp) db.vlan_to_extended_values
