-- ===== src/Examples/Codes.antt =====
-- The theorems on cookies and on the table of extended values.
use pyretic.Base.{ℕ, ◌<◌, some, [], ◌∷◌, ◌≡◌, arith, nat_eq}
use pyretic.Cookie.{get_cookie, get_version_table_from_cookie}
use pyretic.Cookie.RoundTrip.{get_version_table_from_cookie-get_cookie}
use pyretic.ExtendedValues.{ValuesDb, get_vlan, encode_extended_values, decode_extended_values}
use pyretic.ExtendedValues.RoundTrip.{encode_all, decode_extended_values-encode_extended_values}

-- Version 5 in table 3
get_version_table_from_cookie-get_cookie_example :
    (get_version_table_from_cookie (get_cookie 5 3) ≡ (5, 3)) × (get_cookie 5 3 < 65536)
get_version_table_from_cookie-get_cookie_example =
    get_version_table_from_cookie-get_cookie 5 3 (omega arith) (omega arith)

-- The values 20, 10 and 20 again
abbrev used : ValuesDb ℕ
used = encode_all (20 ∷ 10 ∷ 20 ∷ [])

decode_extended_values-encode_extended_values_example :
    (decode_extended_values
        (encode_extended_values 30 used).0.0
        (encode_extended_values 30 used).0.1
        (encode_extended_values 30 used).1
      ≡ some 30)
    × ((y : ℕ) (c : ℕ × ℕ)
        → get_vlan y (encode_extended_values 30 used).1.extended_values_to_vlan ≡ some c
        → decode_extended_values c.0 c.1 (encode_extended_values 30 used).1 ≡ some y)
decode_extended_values-encode_extended_values_example =
    decode_extended_values-encode_extended_values (20 ∷ 10 ∷ 20 ∷ []) 30 (omega arith)
