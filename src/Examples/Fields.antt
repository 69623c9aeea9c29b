-- ===== src/Examples/Fields.antt =====
-- The theorem on virtual fields, for two fields of one stage.
use pyretic.Base.{ℕ, none, some, List, [], ◌∷◌, ◌≡◌, refl, inl, inr}
use pyretic.VirtualField.{VirtualField, Assigned, compress_stage, expand_stage, reversed}
use pyretic.VirtualField.RoundTrip.{fields_of, keys_of, expand_stage-compress_stage}

abbrev path_state : VirtualField
path_state = record { values = 10 ∷ 11 ∷ 12 ∷ [] }

abbrev tenant : VirtualField
tenant = record { values = 5 ∷ 6 ∷ [] }

-- The field path_state is 11 and the field tenant is not set.
abbrev one_set : List Assigned
one_set = record { field = path_state; key = some 11 } ∷ record { field = tenant; key = none } ∷ []

expand_stage-compress_stage_example :
    (num : ℕ) × (compress_stage one_set ≡ some num)
    × (expand_stage num (fields_of one_set) ≡ some (reversed (keys_of one_set)))
expand_stage-compress_stage_example = expand_stage-compress_stage one_set (inr (inl refl), (tt, tt))
