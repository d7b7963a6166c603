-- ===== src/StringUtils/Tests.antt =====
-- lib/string_utils.h at single characters.
use c_cpp_sandbox.Common.{◌≡◌, refl, true, false}
use c_cpp_sandbox.StringUtils.{is_alpha, is_hex_digit}

g_is_alpha : is_alpha b'g' ≡ true
unfolding is_alpha
g_is_alpha = refl

g_is_no_digit : is_hex_digit b'g' ≡ false
unfolding is_hex_digit
g_is_no_digit = refl
