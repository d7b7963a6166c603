-- ===== src/Base64/Tables.antt =====
-- The masks and shifts of lib/base64.h as divisions, and the alphabet, checked at every value.
use c_cpp_sandbox.Common.{
  ℕ, ◌/◌, ◌%◌, ◌<◌, ◌≡◌, refl, bit_and, Bool, true, none, some, arith, ◌==◌, ==_iff, not,
}
use c_cpp_sandbox.Common.Bits.{holds_below, below_holds}
use c_cpp_sandbox.Base64.{base64_chars, find, char_at}

-- A mask and a shift of a byte, as a test of all bytes.
byte_fact : (f g : ℕ → ℕ) → holds_below (λ x. f x == g x) 256 ≡ true → (x : ℕ) → x < 256 → f x ≡ g x
byte_fact f g table x h = (==_iff (f x) (g x)).0 (below_holds (λ x. f x == g x) 256 x h table)

pub and_fc : (x : ℕ) → x < 256 → bit_and x 0xfc / 4 ≡ x / 4
unfolding holds_below
and_fc = byte_fact (λ x. bit_and x 0xfc / 4) (λ x. x / 4) refl

pub and_03 : (x : ℕ) → x < 256 → bit_and x 0x03 ≡ x % 4
unfolding holds_below
and_03 = byte_fact (λ x. bit_and x 0x03) (λ x. x % 4) refl

pub and_f0 : (x : ℕ) → x < 256 → bit_and x 0xf0 / 16 ≡ x / 16
unfolding holds_below
and_f0 = byte_fact (λ x. bit_and x 0xf0 / 16) (λ x. x / 16) refl

pub and_0f : (x : ℕ) → x < 256 → bit_and x 0x0f ≡ x % 16
unfolding holds_below
and_0f = byte_fact (λ x. bit_and x 0x0f) (λ x. x % 16) refl

pub and_c0 : (x : ℕ) → x < 256 → bit_and x 0xc0 / 64 ≡ x / 64
unfolding holds_below
and_c0 = byte_fact (λ x. bit_and x 0xc0 / 64) (λ x. x / 64) refl

pub and_3f : (x : ℕ) → x < 256 → bit_and x 0x3f ≡ x % 64
unfolding holds_below
and_3f = byte_fact (λ x. bit_and x 0x3f) (λ x. x % 64) refl

-- For six-bit values.
pub and_30 : (x : ℕ) → x < 256 → bit_and x 0x30 / 16 ≡ x / 16 % 4
unfolding holds_below
and_30 = byte_fact (λ x. bit_and x 0x30 / 16) (λ x. x / 16 % 4) refl

pub and_3c : (x : ℕ) → x < 256 → bit_and x 0x3c / 4 ≡ x / 4 % 16
unfolding holds_below
and_3c = byte_fact (λ x. bit_and x 0x3c / 4) (λ x. x / 4 % 16) refl

-- The index of a character of the alphabet, and the character that is not in it.
index_or : ℕ → ℕ
index_or c = elim (find base64_chars c) [ none ↦ 64 | some k ↦ k ]

pub find-char_at : (i : ℕ) → i < 64 → find base64_chars (char_at i) ≡ some i
unfolding holds_below find char_at index_or
find-char_at i h = ground (arith, below_holds (λ i. index_or (char_at i) == i) 64 i h refl)

pub char_at-ne_pad : (i : ℕ) → i < 64 → (char_at i == b'=') ≡ Bool.false
unfolding holds_below char_at
char_at-ne_pad i h = ground (arith, below_holds (λ i. not (char_at i == b'=')) 64 i h refl)
