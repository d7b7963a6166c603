-- ===== src/StringUtils.antt =====
-- lib/string_utils.h: the character classes. A character is the number of its byte; `char` is
-- signed, so a byte of 128 or more is negative there and in no class, as it is here.
mod Tests
use c_cpp_sandbox.Common.{ℕ, Bool, ◌&&◌, ◌||◌, leb}

unfoldable pub is_alpha : ℕ → Bool
is_alpha c = (leb 0x41 c && leb c 0x5a) || (leb 0x61 c && leb c 0x7a)

unfoldable pub is_digit : ℕ → Bool
is_digit c = leb 0x30 c && leb c 0x39

unfoldable pub is_lower_hex : ℕ → Bool
is_lower_hex c = leb 0x61 c && leb c 0x66

unfoldable pub is_upper_hex : ℕ → Bool
is_upper_hex c = leb 0x41 c && leb c 0x46

unfoldable pub is_hex_digit : ℕ → Bool
unfolding is_digit is_lower_hex is_upper_hex
is_hex_digit c = is_digit c || is_lower_hex c || is_upper_hex c
