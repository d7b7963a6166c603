-- ===== src/Base64/Tests.antt =====
-- lib/base64.h on short texts.
use c_cpp_sandbox.Common.{
  ℕ, ◌+◌, ◌-◌, ◌*◌, ◌/◌, ◌^◌, ◌≡◌, refl, some, none, List, pos, negsuc, [], ◌∷◌, arith, All, length,
}
use c_cpp_sandbox.Base64.{characters, base64_chars, find, int32, base64_encode, base64_decode}
use c_cpp_sandbox.Base64.RoundTrip.{decode-encode}
use c_cpp_sandbox.Base64.Shape.{length-encode, IsEncoded, encode-IsEncoded}

encode_man : base64_encode (characters "Man") ≡ some (characters "TWFu")
unfolding base64_encode
encode_man = refl

encode_hello : base64_encode (characters "hello") ≡ some (characters "aGVsbG8=")
unfolding base64_encode
encode_hello = refl

decode_hello : base64_decode (characters "aGVs\nbG8=xyz") ≡ characters "hello"
unfolding base64_decode find
decode_hello = refl

newline_foreign : find base64_chars 10 ≡ none
unfolding find
newline_foreign = refl

-- The counter of the loop is zero for 2^32 bytes, and negative from 2^31 bytes on.
counter_none : int32 (2 ^ 32) ≡ pos 0
counter_none = refl

counter_negative : int32 (2 ^ 31) ≡ negsuc (2 ^ 31 - 1)
counter_negative = refl

decode-encode_example :
    (text : List ℕ) × (base64_encode (200 ∷ 7 ∷ 255 ∷ 0 ∷ []) ≡ some text)
    × (base64_decode text ≡ 200 ∷ 7 ∷ 255 ∷ 0 ∷ [])
decode-encode_example =
    decode-encode (200 ∷ 7 ∷ 255 ∷ 0 ∷ [])
      (omega arith, (omega arith, (omega arith, (omega arith, tt)))) (omega arith)

length-encode_example :
    (text : List ℕ) × (base64_encode (characters "hello") ≡ some text)
    × (length text ≡ (5 + 2) / 3 * 4)
length-encode_example = length-encode (characters "hello") (omega arith)

encode-IsEncoded_example :
    (text : List ℕ) × (base64_encode (200 ∷ 7 ∷ []) ≡ some text) × All IsEncoded text
encode-IsEncoded_example =
    encode-IsEncoded (200 ∷ 7 ∷ []) (omega arith, (omega arith, tt)) (omega arith)
