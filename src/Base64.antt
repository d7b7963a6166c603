-- ===== src/Base64.antt =====
-- lib/base64.h: the encoder and the decoder over lists of bytes. `i` and the two scratch arrays of
-- the source are the fields of the state of each loop.
pub mod Tables
pub mod Groups
pub mod Encoded
pub mod RoundTrip
pub mod Shape
mod Tests
use c_cpp_sandbox.Common.{
  characters, ℕ, zero, suc, ◌+◌, ◌-◌, ◌*◌, ◌/◌, ◌%◌, ◌^◌, bit_and, Bool, Option, none, some, List,
  [], ◌∷◌, ◌++◌, ltb, ◌==◌, if◌then◌else◌, get_or, get_elem?, length, ℤ, pos, negsuc,
}

abbrev pub base64_chars : List ℕ
base64_chars = characters "ABCDEFGHIJKLMNOPQRSTUVWXYZabcdefghijklmnopqrstuvwxyz0123456789+/"

-- `std::string::find` of a character; `none` is `npos`.
unfoldable pub find : List ℕ → ℕ → Option ℕ
find [] c = none
find (x ∷ s) c =
    let later = find s c in
    if x == c then some 0 else elim later [ none ↦ none | some k ↦ some (suc k) ]

-- `base64_chars[i]`
unfoldable pub char_at : ℕ → ℕ
char_at i = get_or base64_chars i 0

-- The four six-bit values of three bytes, and the three bytes of four six-bit values.
unfoldable pub sextet0 : ℕ → ℕ
sextet0 a = bit_and a 0xfc / 4

unfoldable pub sextet1 : ℕ → ℕ → ℕ
sextet1 a b = bit_and a 0x03 * 16 + bit_and b 0xf0 / 16

unfoldable pub sextet2 : ℕ → ℕ → ℕ
sextet2 b c = bit_and b 0x0f * 4 + bit_and c 0xc0 / 64

unfoldable pub sextet3 : ℕ → ℕ
sextet3 c = bit_and c 0x3f

-- `static_cast<char>` keeps the low eight bits.
unfoldable pub octet0 : ℕ → ℕ → ℕ
octet0 a b = (a * 4 + bit_and b 0x30 / 16) % 2 ^ 8

unfoldable pub octet1 : ℕ → ℕ → ℕ
octet1 b c = (bit_and b 0xf * 16 + bit_and c 0x3c / 4) % 2 ^ 8

unfoldable pub octet2 : ℕ → ℕ → ℕ
octet2 c d = (bit_and c 0x3 * 64 + d) % 2 ^ 8

-- The bytes held back by `base64Encode`: `i` of them are in `char_array_3`.
pub data Held : Type 0 where
  held0 : Held
  held1 : ℕ → Held
  held2 : ℕ → ℕ → Held

-- The characters of the bytes left over, filled up with '='.
unfoldable pub encode_rest : Held → List ℕ
unfolding char_at sextet0 sextet1 sextet2 sextet3
encode_rest held0 = []
encode_rest (held1 a) = char_at (sextet0 a) ∷ char_at (sextet1 a 0) ∷ b'=' ∷ b'=' ∷ []
encode_rest (held2 a b) =
    char_at (sextet0 a) ∷ char_at (sextet1 a b) ∷ char_at (sextet2 b 0) ∷ b'=' ∷ []

-- One more byte: the characters that it completes, and what is held back then.
unfoldable pub encode_step : Held → ℕ → List ℕ × Held
unfolding char_at sextet0 sextet1 sextet2 sextet3
encode_step held0 x = ([], held1 x)
encode_step (held1 a) x = ([], held2 a x)
encode_step (held2 a b) x = (
  char_at (sextet0 a) ∷ char_at (sextet1 a b) ∷ char_at (sextet2 b x) ∷ char_at (sextet3 x) ∷ [],
  held0,
)

-- `while (input_length--)`, and what comes behind it; `none` is a read outside the input.
unfoldable pub encode_loop : ℕ → List ℕ → Held → Option (List ℕ)
unfolding encode_rest encode_step
encode_loop zero input h = some (encode_rest h)
encode_loop (suc input_length) input h = elim (get_elem? input (length input - input_length - 1)) [
  | none ↦ none
  | some x ↦
      let (encoded, h') = encode_step h x in
      elim (encode_loop input_length input h') [ none ↦ none | some rest ↦ some (encoded ++ rest) ]
]

-- The conversion of a `size_t` to `int`, which keeps the low 32 bits.
abbrev pub int32 : ℕ → ℤ
int32 n = if ltb (n % 2 ^ 32) (2 ^ 31) then pos (n % 2 ^ 32) else negsuc (2 ^ 32 - 1 - n % 2 ^ 32)

-- `none` is undefined behaviour: a negative `input_length` reads past the end in the first turn.
unfoldable pub base64_encode : List ℕ → Option (List ℕ)
unfolding encode_loop
base64_encode input = elim (int32 (length input)) [
  | pos input_length ↦ encode_loop input_length input held0
  | negsuc _ ↦ none
]

-- The six-bit values held back by `base64Decode`: `i` of them are in `char_array_4`.
pub data Kept : Type 0 where
  kept0 : Kept
  kept1 : ℕ → Kept
  kept2 : ℕ → ℕ → Kept
  kept3 : ℕ → ℕ → ℕ → Kept

-- The bytes of the values left over.
unfoldable pub decode_rest : Kept → List ℕ
unfolding octet0 octet1
decode_rest kept0 = []
decode_rest (kept1 a) = []
decode_rest (kept2 a b) = octet0 a b ∷ []
decode_rest (kept3 a b c) = octet0 a b ∷ octet1 b c ∷ []

-- One more value: the bytes that it completes, and what is held back then.
unfoldable pub decode_step : Kept → ℕ → List ℕ × Kept
unfolding octet0 octet1 octet2
decode_step kept0 d = ([], kept1 d)
decode_step (kept1 a) d = ([], kept2 a d)
decode_step (kept2 a b) d = ([], kept3 a b d)
decode_step (kept3 a b c) d = (octet0 a b ∷ octet1 b c ∷ octet2 c d ∷ [], kept0)

unfoldable pub decode_loop : Kept → List ℕ → List ℕ
unfolding decode_rest decode_step
decode_loop k [] = decode_rest k
decode_loop k (encoded_char ∷ input) =
    if encoded_char == b'=' then decode_rest k else elim (find base64_chars encoded_char) [
      | none ↦ decode_loop k input
      | some char_index ↦
          let (decoded, k') = decode_step k char_index in decoded ++ decode_loop k' input
    ]

unfoldable pub base64_decode : List ℕ → List ℕ
unfolding decode_loop
base64_decode input = decode_loop kept0 input
