-- ===== src/Cookie/RoundTrip.antt =====
-- core/runtime.py: the version and the table are read back from a cookie.
use pyretic.Base.{
  ℕ, ◌+◌, ◌*◌, ◌/◌, ◌<◌, bit_and, bit_or, ◌≡◌, ◌∙◌, ap, ap₂, arith, shifted, bit_and-ones_lt,
  bit_and-lower, bit_or-lower, bit_and-low_digits,
}
use pyretic.Cookie.{get_cookie, get_version_table_from_cookie}

get_cookie-parts :
    (version table_id : ℕ)
    → get_cookie version table_id ≡ bit_and table_id 31 * 2048 + bit_and version 0x7ff
unfolding get_cookie
get_cookie-parts version table_id =
    let shift : bit_and table_id 31 * 2048 ≡ shifted 11 (bit_and table_id 31) = omega arith in
    ap (λ t. bit_or t (bit_and version 0x7ff)) shift
    ∙ bit_or-lower 11 (bit_and table_id 31) (bit_and version 0x7ff) (bit_and-ones_lt 11 version)
    ∙ omega arith

-- For a version of 11 bits and a table of 5, the cookie has 16 bits, and the version and the table are
-- read back from it.
pub get_version_table_from_cookie-get_cookie :
    (version table_id : ℕ)
    → version < 2048
    → table_id < 32
    → (get_version_table_from_cookie (get_cookie version table_id) ≡ (version, table_id))
      × (get_cookie version table_id < 65536)
unfolding get_version_table_from_cookie
get_version_table_from_cookie-get_cookie version table_id hv ht =
    let v : bit_and version 0x7ff ≡ version = bit_and-low_digits 11 version hv in
    let t : bit_and table_id 31 ≡ table_id = bit_and-low_digits 5 table_id ht in
    let whole : get_cookie version table_id ≡ table_id * 2048 + version =
      get_cookie-parts version table_id ∙ omega (arith, v, t) in
    let lower : bit_and (get_cookie version table_id) 0x7ff ≡ version =
      ap (λ c. bit_and c 0x7ff) (whole ∙ omega arith) ∙ bit_and-lower 11 table_id version hv in
    let upper : get_cookie version table_id / 2048 ≡ table_id = omega (arith, whole) in
    (ap₂ (λ a b. (a, b)) lower (ap (λ x. bit_and x 31) upper ∙ t), omega (arith, whole))
