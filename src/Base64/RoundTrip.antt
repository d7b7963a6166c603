-- ===== src/Base64/RoundTrip.antt =====
-- `base64Decode` of lib/base64.h on what `base64Encode` writes.
use c_cpp_sandbox.Common.{ℕ, ◌^◌, ◌<◌, ◌≡◌, some, length, ap, ◌∙◌, List, [], ◌∷◌, arith, All}
use c_cpp_sandbox.Base64.{
  char_at, sextet0, sextet1, sextet2, sextet3, kept0, kept1, kept2, kept3, decode_rest, decode_step,
  decode_loop, held0, held1, held2, encode_rest, base64_encode, base64_decode,
}
use c_cpp_sandbox.Base64.Encoded.{encoding, base64_encode-encoding}
use c_cpp_sandbox.Base64.Groups.{
  sextet0_lt, sextet1_lt, sextet2_lt, sextet3_lt, decode-pad, decode-nil, octet0-sextets,
  octet1-sextets, octet2-sextets, decode-char_at,
}

abbrev pub IsByte : ℕ → Type 0
IsByte x = x < 256

decode_four :
    {a b c : ℕ} (rest : List ℕ)
    → IsByte a
    → IsByte b
    → IsByte c
    → decode_loop kept0 (
        char_at (sextet0 a)
        ∷ char_at (sextet1 a b)
        ∷ char_at (sextet2 b c)
        ∷ char_at (sextet3 c)
        ∷ rest)
      ≡ a ∷ b ∷ c ∷ decode_loop kept0 rest
unfolding decode_step
decode_four {a} {b} {c} rest ha hb hc = rw (
  decode-char_at kept0 (sextet0 a) _ (sextet0_lt ha),
  decode-char_at (kept1 (sextet0 a)) (sextet1 a b) _ (sextet1_lt ha hb),
  decode-char_at (kept2 (sextet0 a) (sextet1 a b)) (sextet2 b c) _ (sextet2_lt hb hc),
  decode-char_at (kept3 (sextet0 a) (sextet1 a b) (sextet2 b c)) (sextet3 c) rest (sextet3_lt hc),
  octet0-sextets ha hb,
  octet1-sextets ha hb hc,
  octet2-sextets ha hb hc,
)

decode_two : {a : ℕ} → IsByte a → decode_loop kept0 (encode_rest (held1 a)) ≡ a ∷ []
unfolding decode_step decode_rest encode_rest
decode_two {a} ha = rw (
  decode-char_at kept0 (sextet0 a) _ (sextet0_lt ha),
  decode-char_at (kept1 (sextet0 a)) (sextet1 a 0) _ (sextet1_lt ha {b = 0} (omega arith)),
  decode-pad (kept2 (sextet0 a) (sextet1 a 0)),
  octet0-sextets ha {b = 0} (omega arith),
)

decode_three :
    {a b : ℕ} → IsByte a → IsByte b → decode_loop kept0 (encode_rest (held2 a b)) ≡ a ∷ b ∷ []
unfolding decode_step decode_rest encode_rest
decode_three {a} {b} ha hb = rw (
  decode-char_at kept0 (sextet0 a) _ (sextet0_lt ha),
  decode-char_at (kept1 (sextet0 a)) (sextet1 a b) _ (sextet1_lt ha hb),
  decode-char_at (kept2 (sextet0 a) (sextet1 a b)) (sextet2 b 0) _
      (sextet2_lt hb {b = 0} (omega arith)),
  decode-pad (kept3 (sextet0 a) (sextet1 a b) (sextet2 b 0)),
  octet0-sextets ha hb,
  octet1-sextets {c = 0} ha hb (omega arith),
)

decode-encoding :
    (input : List ℕ) → All IsByte input → decode_loop kept0 (encoding held0 input) ≡ input
unfolding encoding
decode-encoding [] h = decode-nil
decode-encoding (a ∷ []) h = decode_two h.0
decode-encoding (a ∷ b ∷ []) h = decode_three h.0 h.1.0
decode-encoding (a ∷ b ∷ c ∷ input) h =
    decode_four _ h.0 h.1.0 h.1.1.0 ∙ ap (λ l. a ∷ b ∷ c ∷ l) (decode-encoding input h.1.1.1)

-- A list of fewer than 2^31 bytes is encoded without undefined behaviour, and decoding its encoding
-- gives the list back.
pub decode-encode :
    (input : List ℕ)
    → All IsByte input
    → length input < 2 ^ 31
    → (text : List ℕ) × (base64_encode input ≡ some text) × (base64_decode text ≡ input)
unfolding base64_decode
decode-encode input h small =
    (encoding held0 input, base64_encode-encoding input small, decode-encoding input h)
