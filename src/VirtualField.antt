-- ===== src/VirtualField.antt =====
-- core/runtime.py, class abstract_virtual_field: the values of the fields of one stage as one
-- number, and back. The bits of the stage within the VLAN tag are not part of it.
pub mod RoundTrip
use pyretic.Base.{
  ℕ, zero, suc, ◌+◌, ◌*◌, ◌/◌, ◌%◌, ◌==◌, length, Bool, true, false, Option, none, some, List, [],
  ◌∷◌, ◌++◌, map, if◌then◌else◌,
}

-- A value that a field can have, by its identity.
abbrev pub Value : Type 0
Value = ℕ

pub record VirtualField : Type 0 where
  pub values : List Value

-- `None` is a value too.
abbrev pub cardinality : VirtualField → ℕ
cardinality f = length f.values + 1

abbrev pub next : Option ℕ → Option ℕ
next none = none
next (some i) = some (suc i)

-- self.values.index(key)
unfoldable pub find : List Value → Value → Option ℕ
find [] key = none
find (v ∷ vs) key = let rest = next (find vs key) in if v == key then some 0 else rest

-- index; `none` is the ValueError
unfoldable pub index : VirtualField → Option Value → Option ℕ
unfolding find
index f none = some (length f.values)
index f (some key) = find f.values key

-- values[i] for the values of the field and then None; `none` is the IndexError
unfoldable pub get : List Value → ℕ → Option (Option Value)
get [] zero = some none
get [] (suc i) = none
get (v ∷ vs) zero = some (some v)
get (v ∷ vs) (suc i) = get vs i

unfoldable pub value : VirtualField → ℕ → Option (Option Value)
unfolding get
value f i = get f.values i

-- A field and the value that it has, or None.
pub record Assigned : Type 0 where
  pub field : VirtualField
  pub key : Option Value

unfoldable pub reversed : {A : Type 0} → List A → List A
reversed [] = []
reversed (x ∷ xs) = reversed xs ++ x ∷ []

abbrev pub add_digit : ℕ → ℕ → Option ℕ → Option ℕ
add_digit ret card none = none
add_digit ret card (some i) = some (ret * card + i)

-- The loop of compress over the fields of the active stage, in the order of their names.
unfoldable pub compress_digits : Option ℕ → List Assigned → Option ℕ
unfolding index
compress_digits ret [] = ret
compress_digits none (a ∷ as') = none
compress_digits (some ret) (a ∷ as') =
    compress_digits (add_digit ret (cardinality a.field) (index a.field a.key)) as'

unfoldable pub compress_stage : List Assigned → Option ℕ
unfolding compress_digits
compress_stage as' = compress_digits (some 0) as'

abbrev pub cons_value :
    Option (Option Value) → Option (List (Option Value)) → Option (List (Option Value))
cons_value (some v) (some vs) = some (v ∷ vs)
cons_value _ _ = none

-- The loop of expand over the fields of the stage, in the reversed order of their names.
unfoldable pub expand_digits : ℕ → List VirtualField → Option (List (Option Value))
unfolding value
expand_digits tmp [] = some []
expand_digits tmp (f ∷ fs) =
    cons_value (value f (tmp % cardinality f)) (expand_digits (tmp / cardinality f) fs)

unfoldable pub expand_stage : ℕ → List VirtualField → Option (List (Option Value))
unfolding expand_digits reversed
expand_stage num fields = expand_digits num (reversed fields)
