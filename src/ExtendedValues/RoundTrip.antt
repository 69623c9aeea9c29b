-- ===== src/ExtendedValues/RoundTrip.antt =====
-- core/runtime.py: extended values are read back from the tag that they were given.
use pyretic.Base.{
  ℕ, suc, ◌+◌, ◌<◌, ◌≤◌, ◌==◌, ==_iff, true, false, Option, none, some, List, [], ◌∷◌, map, length,
  ◌≡◌, refl, sym, ◌∙◌, ap, ap₂, arith, inl, inr, Bool-cases, and-true, Eq, bit_and-masks, some_inj,
  none≢some,
}
use pyretic.ExtendedValues.{
  vlan_code, code_eq, ValuesDb, get_vlan, get_values, encode_with, encode_extended_values,
  decode_extended_values,
}

-- Numbers of at most 15 bits are their two parts.
vlan_code_parts : (r : ℕ) → r < 32768 → (vlan_code r).1 + (vlan_code r).0 ≡ r
unfolding vlan_code
vlan_code_parts r h = bit_and-masks 12 3 r h

vlan_code_differ : (r s : ℕ) → r < s → s < 32768 → code_eq (vlan_code s) (vlan_code r) ≡ false
vlan_code_differ r s h k = elim (Bool-cases (code_eq (vlan_code s) (vlan_code r))) [
  | inl e ↦
      let (a, b) =
        (and-true ((vlan_code s).0 == (vlan_code r).0) ((vlan_code s).1 == (vlan_code r).1)).0 e in
      absurd (
        omega (
          arith,
          vlan_code_parts r (omega arith),
          vlan_code_parts s k,
          (==_iff (vlan_code s).0 (vlan_code r).0).0 a,
          (==_iff (vlan_code s).1 (vlan_code r).1).0 b,
          h,
        ))
  | inr e ↦ e
]

code_eq_sound : (c d : ℕ × ℕ) → code_eq c d ≡ true → c ≡ d
code_eq_sound c d h =
    let (a, b) = (and-true (c.0 == d.0) (c.1 == d.1)).0 h in
    ap₂ (λ x y. (x, y)) ((==_iff c.0 d.0).0 a) ((==_iff c.1 d.1).0 b)

code_eq_refl : (c : ℕ × ℕ) → code_eq c c ≡ true
code_eq_refl c = ground (arith, (==_iff c.0 c.0).1 refl, (==_iff c.1 c.1).1 refl)

module _ {E : Type 0} ⦃e : Eq E⦄ where
  -- The codes are those of the numbers from 1 on.
  abbrev Numbered : List (E × (ℕ × ℕ)) → Type 0
  Numbered [] = Unit
  Numbered (p ∷ ps) = (p.1 ≡ vlan_code (suc (length ps))) × Numbered ps

  abbrev swapped : E × (ℕ × ℕ) → (ℕ × ℕ) × E
  swapped p = (p.1, p.0)

  fresh :
      (r : ℕ) (ps : List (E × (ℕ × ℕ)))
      → Numbered ps
      → length ps < r
      → r < 32768
      → get_values (vlan_code r) (map swapped ps) ≡ none
  unfolding get_values
  fresh r [] n h k = refl
  fresh r (p ∷ ps) (c, n) h k =
      let differ : code_eq (vlan_code r) p.1 ≡ false =
        ap (code_eq (vlan_code r)) c ∙ vlan_code_differ (suc (length ps)) r h k in
      rw differ (fresh r ps n (omega arith) k)

  read_back :
      (x : E) (ps : List (E × (ℕ × ℕ))) {c : ℕ × ℕ}
      → Numbered ps
      → length ps < 32768
      → get_vlan x ps ≡ some c
      → get_values c (map swapped ps) ≡ some x
  unfolding get_values get_vlan
  read_back x [] n h k = absurd (none≢some k)
  read_back x (p ∷ ps) {c} (code, n) h k = elim (Bool-cases (e.eq x p.0)) [
    | inl t ↦
        let same : p.1 ≡ c = some_inj (rw t at k) in
        let hit : code_eq c p.1 ≡ true = ap (code_eq c) same ∙ code_eq_refl c in
        rw hit (ap some (sym ((e.eq_iff x p.0).0 t)))
    | inr t ↦
        let later : get_vlan x ps ≡ some c = rw t at k in
        let found = read_back x ps n (omega arith) later in
        elim (Bool-cases (code_eq c p.1)) [
          | inl s ↦ absurd (
              none≢some (
                sym (fresh (suc (length ps)) ps n (omega arith) h)
                ∙ ap (λ d. get_values d (map swapped ps)) (sym (code_eq_sound c p.1 s ∙ code))
                ∙ found))
          | inr s ↦ rw s found
        ]
  ]

  -- The second dictionary is the first one turned around.
  record IsValid (db : ValuesDb E) : Type 0 where
    numbered : Numbered db.extended_values_to_vlan
    turned : db.vlan_to_extended_values ≡ map swapped db.extended_values_to_vlan

  encode_with-IsValid :
      (x : E) (db : ValuesDb E) (o : Option (ℕ × ℕ)) → IsValid db → IsValid (encode_with x db o).1
  encode_with-IsValid x db (some c) v = v
  encode_with-IsValid x db none v = record {
    numbered = (refl, v.numbered);
    turned =
        let first = vlan_code (suc (length db.extended_values_to_vlan)) in
        ap (λ ps. (first, x) ∷ ps) v.turned;
  }

  -- Values encoded one after the other, the last ones first in the list.
  unfoldable pub encode_all : List E → ValuesDb E
  unfolding encode_extended_values
  encode_all [] = record { extended_values_to_vlan = []; vlan_to_extended_values = [] }
  encode_all (x ∷ xs) = (encode_extended_values x (encode_all xs)).1

  encode_all-IsValid : (xs : List E) → IsValid (encode_all xs)
  unfolding encode_all encode_extended_values
  encode_all-IsValid [] = record { numbered = tt; turned = refl }
  encode_all-IsValid (x ∷ xs) =
      let db = encode_all xs in
      encode_with-IsValid x db (get_vlan x db.extended_values_to_vlan) (encode_all-IsValid xs)

  encode_with-length :
      (x : E) (db : ValuesDb E) (o : Option (ℕ × ℕ))
      → length (encode_with x db o).1.extended_values_to_vlan
        ≤ suc (length db.extended_values_to_vlan)
  encode_with-length x db (some c) = omega arith
  encode_with-length x db none = omega arith

  encode_all-length : (xs : List E) → length (encode_all xs).extended_values_to_vlan ≤ length xs
  unfolding encode_all encode_extended_values
  encode_all-length [] = omega arith
  encode_all-length (x ∷ xs) =
      let db = encode_all xs in
      omega (
        arith,
        encode_with-length x db (get_vlan x db.extended_values_to_vlan),
        encode_all-length xs,
      )

  encode_with-get_vlan :
      (x : E) (db : ValuesDb E) (o : Option (ℕ × ℕ))
      → get_vlan x db.extended_values_to_vlan ≡ o
      → get_vlan x (encode_with x db o).1.extended_values_to_vlan ≡ some (encode_with x db o).0
  unfolding get_vlan
  encode_with-get_vlan x db (some c) h = h
  encode_with-get_vlan x db none h = rw ((e.eq_iff x x).1 refl) refl

  -- After fewer than 32767 calls, the tag that encode_extended_values returns is decoded to the
  -- values that it was given, and so is every tag that the table has for other values.
  pub decode_extended_values-encode_extended_values :
      (xs : List E) (x : E)
      → length xs < 32767
      → (let r = encode_extended_values x (encode_all xs) in
          (decode_extended_values r.0.0 r.0.1 r.1 ≡ some x)
          × ((y : E) (c : ℕ × ℕ)
              → get_vlan y r.1.extended_values_to_vlan ≡ some c
              → decode_extended_values c.0 c.1 r.1 ≡ some y))
  unfolding decode_extended_values encode_extended_values encode_all
  decode_extended_values-encode_extended_values xs x h =
      let v = encode_all-IsValid (x ∷ xs) in
      let db = encode_all (x ∷ xs) in
      let enough : length db.extended_values_to_vlan < 32768 =
        omega (arith, encode_all-length (x ∷ xs)) in
      let decodes : (y : E) (c : ℕ × ℕ)
          → get_vlan y db.extended_values_to_vlan ≡ some c
          → get_values c db.vlan_to_extended_values ≡ some y =
        λ y c k.
          ap (get_values c) v.turned ∙ read_back y db.extended_values_to_vlan v.numbered enough k in
      let old = encode_all xs in
      (
        decodes x _ (encode_with-get_vlan x old (get_vlan x old.extended_values_to_vlan) refl),
        decodes,
      )
