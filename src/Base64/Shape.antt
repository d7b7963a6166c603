-- ===== src/Base64/Shape.antt =====
-- The lengths and the characters of what lib/base64.h writes, and what its decoder passes over.
use c_cpp_sandbox.Common.{
  ℕ, ◌+◌, ◌*◌, ◌/◌, ◌^◌, ◌≤◌, ◌<◌, ◌≡◌, ◌≢◌, refl, ◌++◌, ◌⊎◌, inl, inr, none, some, List, [], ◌∷◌,
  arith, Option-cases, All, length, length-append,
}
use c_cpp_sandbox.Base64.{
  base64_chars, find, char_at, Kept, kept0, kept1, kept2, kept3, decode_rest, decode_step,
  decode_loop, held0, base64_encode, base64_decode,
}
use c_cpp_sandbox.Base64.Encoded.{encoding, base64_encode-encoding}
use c_cpp_sandbox.Base64.Tables.{find-char_at}
use c_cpp_sandbox.Base64.Groups.{sextet0_lt, sextet1_lt, sextet2_lt, sextet3_lt}
use c_cpp_sandbox.Base64.RoundTrip.{IsByte}

length-encoding : (input : List ℕ) → length (encoding held0 input) ≡ (length input + 2) / 3 * 4
unfolding encoding
length-encoding [] = refl
length-encoding (a ∷ []) = refl
length-encoding (a ∷ b ∷ []) = refl
length-encoding (a ∷ b ∷ c ∷ input) = omega (arith, length-encoding input)

-- The encoding of fewer than 2^31 bytes has four characters for every three bytes, the last group
-- filled up.
pub length-encode :
    (input : List ℕ)
    → length input < 2 ^ 31
    → (text : List ℕ) × (base64_encode input ≡ some text)
      × (length text ≡ (length input + 2) / 3 * 4)
length-encode input small =
    (encoding held0 input, base64_encode-encoding input small, length-encoding input)

-- A character that the encoder may write.
abbrev pub IsEncoded : ℕ → Type 0
IsEncoded c = (c ≡ b'=') ⊎ ((i : ℕ) × (i < 64) × (find base64_chars c ≡ some i))

char_at-IsEncoded : (i : ℕ) → i < 64 → IsEncoded (char_at i)
char_at-IsEncoded i h = inr (i, h, find-char_at i h)

encoding-IsEncoded : (input : List ℕ) → All IsByte input → All IsEncoded (encoding held0 input)
unfolding encoding
encoding-IsEncoded [] h = tt
encoding-IsEncoded (a ∷ []) h = (
  char_at-IsEncoded _ (sextet0_lt h.0),
  (char_at-IsEncoded _ (sextet1_lt h.0 {b = 0} (omega arith)), (inl refl, (inl refl, tt))),
)
encoding-IsEncoded (a ∷ b ∷ []) h = (
  char_at-IsEncoded _ (sextet0_lt h.0),
  (
    char_at-IsEncoded _ (sextet1_lt h.0 h.1.0),
    (char_at-IsEncoded _ (sextet2_lt h.1.0 {b = 0} (omega arith)), (inl refl, tt)),
  ),
)
encoding-IsEncoded (a ∷ b ∷ c ∷ input) h = (
  char_at-IsEncoded _ (sextet0_lt h.0),
  (
    char_at-IsEncoded _ (sextet1_lt h.0 h.1.0),
    (
      char_at-IsEncoded _ (sextet2_lt h.1.0 h.1.1.0),
      (char_at-IsEncoded _ (sextet3_lt h.1.1.0), encoding-IsEncoded input h.1.1.1),
    ),
  ),
)

-- Every character of the encoding of a list of fewer than 2^31 bytes is '=' or in the alphabet.
pub encode-IsEncoded :
    (input : List ℕ)
    → All IsByte input
    → length input < 2 ^ 31
    → (text : List ℕ) × (base64_encode input ≡ some text) × All IsEncoded text
encode-IsEncoded input h small =
    (encoding held0 input, base64_encode-encoding input small, encoding-IsEncoded input h)

foreign_loop :
    (k : Kept) (before after : List ℕ) (c : ℕ)
    → c ≢ b'='
    → find base64_chars c ≡ none
    → decode_loop k (before ++ c ∷ after) ≡ decode_loop k (before ++ after)
unfolding decode_loop
foreign_loop k [] after c ne out = ground (arith, ne, out)
foreign_loop k (x ∷ before) after c ne out = elim (Option-cases (find base64_chars x)) [
  | inl e ↦ ground (arith, e, foreign_loop k before after c ne out)
  | inr (i, e) ↦ ground (arith, e, foreign_loop (decode_step k i).1 before after c ne out)
]

-- A character that is neither '=' nor in the alphabet changes nothing, wherever it stands.
pub decode_ignores :
    (before after : List ℕ) (c : ℕ)
    → c ≢ b'='
    → find base64_chars c ≡ none
    → base64_decode (before ++ c ∷ after) ≡ base64_decode (before ++ after)
unfolding base64_decode
decode_ignores before after c ne out = foreign_loop kept0 before after c ne out

abbrev kept_size : Kept → ℕ
kept_size kept0 = 0
kept_size (kept1 a) = 1
kept_size (kept2 a b) = 2
kept_size (kept3 a b c) = 3

length-decode_rest : (k : Kept) → 4 * length (decode_rest k) ≤ 3 * kept_size k
unfolding decode_rest
length-decode_rest kept0 = omega arith
length-decode_rest (kept1 a) = omega arith
length-decode_rest (kept2 a b) = omega arith
length-decode_rest (kept3 a b c) = omega arith

-- Three bytes are written when the fourth value comes.
length-decode_step :
    (k : Kept) (i : ℕ)
    → 4 * length (decode_step k i).0 + 3 * kept_size (decode_step k i).1 ≡ 3 * kept_size k + 3
unfolding decode_step
length-decode_step kept0 i = omega arith
length-decode_step (kept1 a) i = omega arith
length-decode_step (kept2 a b) i = omega arith
length-decode_step (kept3 a b c) i = omega arith

length-decode_loop :
    (k : Kept) (input : List ℕ)
    → 4 * length (decode_loop k input) ≤ 3 * (kept_size k + length input)
unfolding decode_loop
length-decode_loop k [] = omega (arith, length-decode_rest k)
length-decode_loop k (x ∷ input) = elim (Option-cases (find base64_chars x)) [
  | inl e ↦ ground (arith, e, length-decode_rest k, length-decode_loop k input)
  | inr (i, e) ↦ ground (
    arith,
    e,
    length-decode_rest k,
    length-decode_step k i,
    length-decode_loop (decode_step k i).1 input,
    length-append (decode_step k i).0 (decode_loop (decode_step k i).1 input),
  )
]

-- The decoder writes at most three bytes for every four characters that it reads.
pub length-decode : (input : List ℕ) → 4 * length (base64_decode input) ≤ 3 * length input
unfolding base64_decode
length-decode input = omega (arith, length-decode_loop kept0 input)
