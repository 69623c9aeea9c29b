-- ===== src/Cookie.antt =====
-- core/runtime.py, get_cookie and get_version_table_from_cookie: the cookies of rules.
pub mod RoundTrip
use pyretic.Base.{ℕ, ◌*◌, ◌/◌, ◌^◌, bit_and, bit_or}

-- ((table_id & 0b11111) << 11) | (version & 0x7ff)
unfoldable pub get_cookie : ℕ → ℕ → ℕ
get_cookie version table_id = bit_or (bit_and table_id 31 * 2 ^ 11) (bit_and version 0x7ff)

-- (version, table_id), from cookie & 0x7ff and (cookie >> 11) & 0b11111
unfoldable pub get_version_table_from_cookie : ℕ → ℕ × ℕ
get_version_table_from_cookie cookie = (bit_and cookie 0x7ff, bit_and (cookie / 2 ^ 11) 31)
