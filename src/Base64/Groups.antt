-- ===== src/Base64/Groups.antt =====
-- One group of lib/base64.h: three bytes, and the four six-bit values that stand for them.
use c_cpp_sandbox.Common.{ℕ, ◌+◌, ◌*◌, ◌/◌, ◌%◌, ◌<◌, ◌≡◌, refl, ◌++◌, List, [], ◌∷◌, arith}
use c_cpp_sandbox.Base64.{
  char_at, sextet0, sextet1, sextet2, sextet3, octet0, octet1, octet2, Kept, kept0, decode_rest,
  decode_step, decode_loop,
}
use c_cpp_sandbox.Base64.Tables.{
  and_fc, and_03, and_f0, and_0f, and_c0, and_3f, and_30, and_3c, find-char_at, char_at-ne_pad,
}

module _ {a : ℕ} (ha : a < 256) where
  pub sextet0_eq : sextet0 a ≡ a / 4
  unfolding sextet0
  sextet0_eq = and_fc a ha

  pub sextet3_eq : sextet3 a ≡ a % 64
  unfolding sextet3
  sextet3_eq = and_3f a ha

  pub sextet0_lt : sextet0 a < 64
  sextet0_lt = omega (arith, sextet0_eq)

  pub sextet3_lt : sextet3 a < 64
  sextet3_lt = omega (arith, sextet3_eq)

  module _ {b : ℕ} (hb : b < 256) where
    pub sextet1_eq : sextet1 a b ≡ a % 4 * 16 + b / 16
    unfolding sextet1
    sextet1_eq = omega (arith, and_03 a ha, and_f0 b hb)

    pub sextet2_eq : sextet2 a b ≡ a % 16 * 4 + b / 64
    unfolding sextet2
    sextet2_eq = omega (arith, and_0f a ha, and_c0 b hb)

    pub sextet1_lt : sextet1 a b < 64
    sextet1_lt = omega (arith, sextet1_eq)

    pub sextet2_lt : sextet2 a b < 64
    sextet2_lt = omega (arith, sextet2_eq)

    -- The first byte comes back from the first two values.
    pub octet0-sextets : octet0 (sextet0 a) (sextet1 a b) ≡ a
    unfolding octet0
    octet0-sextets =
        omega (arith, sextet0_eq, sextet1_eq, and_30 (sextet1 a b) (omega (arith, sextet1_eq)))

module _ {a b c : ℕ} (ha : a < 256) (hb : b < 256) (hc : c < 256) where
  pub octet1-sextets : octet1 (sextet1 a b) (sextet2 b c) ≡ b
  unfolding octet1
  octet1-sextets = omega (
    arith,
    sextet1_eq ha hb,
    sextet2_eq hb hc,
    and_0f (sextet1 a b) (omega (arith, sextet1_eq ha hb)),
    and_3c (sextet2 b c) (omega (arith, sextet2_eq hb hc)),
  )

  pub octet2-sextets : octet2 (sextet2 b c) (sextet3 c) ≡ c
  unfolding octet2
  octet2-sextets = omega (
    arith,
    sextet2_eq hb hc,
    sextet3_eq hc,
    and_03 (sextet2 b c) (omega (arith, sextet2_eq hb hc)),
  )

-- The decoder reads a character of the alphabet as its index.
pub decode-char_at :
    (k : Kept) (i : ℕ) (input : List ℕ)
    → i < 64
    → decode_loop k (char_at i ∷ input)
      ≡ (decode_step k i).0 ++ decode_loop (decode_step k i).1 input
unfolding decode_loop
decode-char_at k i input h = rw (char_at-ne_pad i h, find-char_at i h)

-- The decoder stops at the padding.
pub decode-pad : (k : Kept) (input : List ℕ) → decode_loop k (b'=' ∷ input) ≡ decode_rest k
unfolding decode_loop
decode-pad k input = refl

pub decode-nil : decode_loop kept0 [] ≡ []
unfolding decode_loop
decode-nil = refl
