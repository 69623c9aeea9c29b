-- ===== src/VirtualField/RoundTrip.antt =====
-- core/runtime.py, abstract_virtual_field: what is expanded is what was compressed.
use native.Mathlib.Nat.{mod-eq_of_lt, div-eq_of_lt, mul-add-div_right, mul-add-mod_self_right}
use pyretic.Base.{
  ℕ, suc, ◌+◌, ◌*◌, ◌/◌, ◌%◌, ◌<◌, ◌==◌, length, true, Option, none, some, List, In, All, [], ◌∷◌,
  ◌++◌, ◌≡◌, refl, sym, ◌∙◌, ap, arith, Bool-cases, Option-cases, inl, inr,
}
use pyretic.VirtualField.{
  Value, VirtualField, cardinality, find, index, get, value, Assigned, reversed, add_digit,
  compress_digits, compress_stage, expand_digits, expand_stage,
}

get-find :
    (vs : List Value) (key : Value) (i : ℕ) → find vs key ≡ some i → get vs i ≡ some (some key)
unfolding find get
get-find [] key i h = ground arith
get-find (v ∷ vs) key i h = elim (Bool-cases (v == key)) [
  | inl e ↦
      let first : 0 ≡ i = ground arith in
      let same : v ≡ key = ground arith in rw (← first, same) refl
  | inr e ↦ elim (Option-cases (find vs key)) [
    | inl k ↦ ground arith
    | inr (j, k) ↦ let later : suc j ≡ i = ground arith in rw (← later) (get-find vs key j k)
  ]
]

find_bound : (vs : List Value) (key : Value) (i : ℕ) → find vs key ≡ some i → i < length vs
unfolding find
find_bound [] key i h = ground arith
find_bound (v ∷ vs) key i h = elim (Option-cases (find vs key)) [
  | inl k ↦ ground arith
  | inr (j, k) ↦ let bound = find_bound vs key j k in ground arith
]

get-length : (vs : List Value) → get vs (length vs) ≡ some none
unfolding get
get-length [] = refl
get-length (v ∷ vs) = get-length vs

-- The value at the index of a key is the key.
value-index :
    (f : VirtualField) (key : Option Value) (i : ℕ) → index f key ≡ some i → value f i ≡ some key
unfolding value index
value-index f none i h =
    let e : length f.values ≡ i = ground arith in rw (← e) (get-length f.values)
value-index f (some key) i h = get-find f.values key i h

index_bound :
    (f : VirtualField) (key : Option Value) (i : ℕ) → index f key ≡ some i → i < cardinality f
unfolding index
index_bound f none i h = ground arith
index_bound f (some key) i h = let k = find_bound f.values key i h in omega arith

compress_digits-none : (as' : List Assigned) → compress_digits none as' ≡ none
unfolding compress_digits
compress_digits-none [] = refl
compress_digits-none (a ∷ as') = refl

last_digit : Option ℕ → Assigned → Option ℕ
last_digit none a = none
last_digit (some ret) a = add_digit ret (cardinality a.field) (index a.field a.key)

compress_digits-append :
    (ret : Option ℕ) (as' : List Assigned) (a : Assigned)
    → compress_digits ret (as' ++ a ∷ []) ≡ last_digit (compress_digits ret as') a
unfolding compress_digits last_digit
compress_digits-append none [] a = refl
compress_digits-append (some ret) [] a = refl
compress_digits-append none (b ∷ as') a = refl
compress_digits-append (some ret) (b ∷ as') a =
    compress_digits-append (add_digit ret (cardinality b.field) (index b.field b.key)) as' a

no_digit : (a : Assigned) (num : ℕ) → last_digit none a ≡ some num → ⊥
unfolding last_digit
no_digit a num h = ground arith

digit_of :
    (a : Assigned) (ret num : ℕ)
    → last_digit (some ret) a ≡ some num
    → (i : ℕ) × (index a.field a.key ≡ some i) × (ret * cardinality a.field + i ≡ num)
unfolding last_digit
digit_of a ret num h = elim (Option-cases (index a.field a.key)) [
  | inl e ↦ absurd (ground arith)
  | inr (i, e) ↦ (i, e, (let same = rw e at h in ground arith))
]

digit_value :
    (a : Assigned) (ret i : ℕ)
    → index a.field a.key ≡ some i
    → value a.field ((ret * cardinality a.field + i) % cardinality a.field) ≡ some a.key
digit_value a ret i h =
    let bound = index_bound a.field a.key i h in
    ap (value a.field) (mul-add-mod_self_right ret (cardinality a.field) i ∙ mod-eq_of_lt bound)
    ∙ value-index a.field a.key i h

digit_rest :
    (a : Assigned) (ret i : ℕ)
    → index a.field a.key ≡ some i
    → (ret * cardinality a.field + i) / cardinality a.field ≡ ret
digit_rest a ret i h =
    let bound = index_bound a.field a.key i h in
    let positive : 0 < cardinality a.field = omega arith in
    let nothing : i / cardinality a.field ≡ 0 = div-eq_of_lt bound in
    mul-add-div_right positive ret i ∙ omega arith

abbrev pub fields_of : List Assigned → List VirtualField
fields_of [] = []
fields_of (a ∷ as') = a.field ∷ fields_of as'

abbrev pub keys_of : List Assigned → List (Option Value)
keys_of [] = []
keys_of (a ∷ as') = a.key ∷ keys_of as'

expand-compress_reversed :
    (as' : List Assigned) (num : ℕ)
    → compress_digits (some 0) (reversed as') ≡ some num
    → expand_digits num (fields_of as') ≡ some (keys_of as')
unfolding expand_digits reversed
expand-compress_reversed [] num h = refl
expand-compress_reversed (a ∷ as') num h =
    let last : last_digit (compress_digits (some 0) (reversed as')) a ≡ some num =
      sym (compress_digits-append (some 0) (reversed as') a) ∙ h in
    elim (Option-cases (compress_digits (some 0) (reversed as'))) [
      | inl e ↦ absurd (no_digit a num (rw e at last))
      | inr (ret, e) ↦
          let (i, k, is_num) = digit_of a ret num (rw e at last) in
          rw
            (
              ← is_num,
              digit_value a ret i k,
              digit_rest a ret i k,
              expand-compress_reversed as' ret e,
            )
            refl
    ]

-- The list reversed twice, and what commutes with reversal.
reversed-append : {A : Type 0} (xs : List A) (x : A) → reversed (xs ++ x ∷ []) ≡ x ∷ reversed xs
unfolding reversed
reversed-append [] x = refl
reversed-append (y ∷ xs) x = ap (λ zs. zs ++ y ∷ []) (reversed-append xs x)

reversed-reversed : {A : Type 0} (xs : List A) → reversed (reversed xs) ≡ xs
unfolding reversed
reversed-reversed [] = refl
reversed-reversed (x ∷ xs) =
    reversed-append (reversed xs) x ∙ ap (λ ys. x ∷ ys) (reversed-reversed xs)

fields_of-append :
    (as' : List Assigned) (a : Assigned) → fields_of (as' ++ a ∷ []) ≡ fields_of as' ++ a.field ∷ []
fields_of-append [] a = refl
fields_of-append (b ∷ as') a = ap (λ fs. b.field ∷ fs) (fields_of-append as' a)

keys_of-append :
    (as' : List Assigned) (a : Assigned) → keys_of (as' ++ a ∷ []) ≡ keys_of as' ++ a.key ∷ []
keys_of-append [] a = refl
keys_of-append (b ∷ as') a = ap (λ ks. b.key ∷ ks) (keys_of-append as' a)

fields_of-reversed : (as' : List Assigned) → fields_of (reversed as') ≡ reversed (fields_of as')
unfolding reversed
fields_of-reversed [] = refl
fields_of-reversed (a ∷ as') =
    fields_of-append (reversed as') a ∙ ap (λ fs. fs ++ a.field ∷ []) (fields_of-reversed as')

keys_of-reversed : (as' : List Assigned) → keys_of (reversed as') ≡ reversed (keys_of as')
unfolding reversed
keys_of-reversed [] = refl
keys_of-reversed (a ∷ as') =
    keys_of-append (reversed as') a ∙ ap (λ ks. ks ++ a.key ∷ []) (keys_of-reversed as')

-- The key is None or one of the values of the field.
abbrev pub Known : VirtualField → Option Value → Type 0
Known f none = Unit
Known f (some key) = In key f.values

find-In : (vs : List Value) (key : Value) → In key vs → (i : ℕ) × (find vs key ≡ some i)
unfolding find
find-In [] key h = absurd h
find-In (v ∷ vs) key (inl e) = (0, let same : (v == key) ≡ true = ground arith in rw same)
find-In (v ∷ vs) key (inr h) = elim (Bool-cases (v == key)) [
  | inl e ↦ (0, rw e)
  | inr e ↦ let (i, k) = find-In vs key h in (suc i, rw (e, k))
]

index-Known :
    (f : VirtualField) (key : Option Value) → Known f key → (i : ℕ) × (index f key ≡ some i)
unfolding index
index-Known f none h = (length f.values, refl)
index-Known f (some key) h = find-In f.values key h

abbrev pub KnownKeys : List Assigned → Type 0
KnownKeys = All (λ a. Known a.field a.key)

compress_digits-KnownKeys :
    (ret : ℕ) (as' : List Assigned)
    → KnownKeys as'
    → (num : ℕ) × (compress_digits (some ret) as' ≡ some num)
unfolding compress_digits
compress_digits-KnownKeys ret [] h = (ret, refl)
compress_digits-KnownKeys ret (a ∷ as') (h, hs) =
    let (i, k) = index-Known a.field a.key h in
    let (num, rest) = compress_digits-KnownKeys (ret * cardinality a.field + i) as' hs in
    (num, rw k rest)

-- If every key is None or a value of its field, the fields of a stage compress to a number, and
-- expanding this number gives every field its key again, in the reversed order of the fields.
pub expand_stage-compress_stage :
    (as' : List Assigned)
    → KnownKeys as'
    → (num : ℕ) × (compress_stage as' ≡ some num)
      × (expand_stage num (fields_of as') ≡ some (reversed (keys_of as')))
unfolding compress_stage expand_stage
expand_stage-compress_stage as' h =
    let (num, k) = compress_digits-KnownKeys 0 as' h in
    (
      num,
      k,
      ap (expand_digits num) (sym (fields_of-reversed as'))
          ∙ expand-compress_reversed (reversed as') num
              (ap (compress_digits (some 0)) (reversed-reversed as') ∙ k)
          ∙ ap some (keys_of-reversed as'),
    )
