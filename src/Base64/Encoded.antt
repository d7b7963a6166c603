-- ===== src/Base64/Encoded.antt =====
-- `base64Encode` of lib/base64.h against a recursion over the bytes of its input.
use c_cpp_sandbox.Common.{
  ℕ, zero, suc, ◌+◌, ◌-◌, ◌^◌, ◌<◌, ◌≡◌, refl, sym, ap, ◌∙◌, some, List, [], ◌∷◌, ◌++◌, arith,
  length, drop, get_elem?, get_elem?-drop, drop-drop, length-drop, pos,
}
use c_cpp_sandbox.Base64.{
  char_at, sextet0, sextet1, sextet2, sextet3, Held, held0, held1, held2, encode_rest, encode_step,
  encode_loop, int32, base64_encode,
}

-- The characters of the bytes held back and the bytes to come.
unfoldable pub encoding : Held → List ℕ → List ℕ
unfolding encode_rest char_at sextet0 sextet1 sextet2 sextet3
encoding h [] = encode_rest h
encoding held0 (x ∷ input) = encoding (held1 x) input
encoding (held1 a) (x ∷ input) = encoding (held2 a x) input
encoding (held2 a b) (x ∷ input) =
    char_at (sextet0 a)
    ∷ char_at (sextet1 a b)
    ∷ char_at (sextet2 b x)
    ∷ char_at (sextet3 x)
    ∷ encoding held0 input

encoding_step :
    (h : Held) (x : ℕ) (rest : List ℕ)
    → (encode_step h x).0 ++ encoding (encode_step h x).1 rest ≡ encoding h (x ∷ rest)
unfolding encode_step encoding
encoding_step held0 x rest = refl
encoding_step (held1 a) x rest = refl
encoding_step (held2 a b) x rest = refl

encode_loop-encoding :
    (input rest : List ℕ) (h : Held)
    → drop (length input - length rest) input ≡ rest
    → encode_loop (length rest) input h ≡ some (encoding h rest)
unfolding encode_loop encoding
encode_loop-encoding input [] h e = refl
encode_loop-encoding input (x ∷ rest) h e =
    let size = length-drop (length input - suc (length rest)) input in
    let long : suc (length rest) ≡ length input - (length input - suc (length rest)) =
      sym (ap length e) ∙ size in
    let here : get_elem? input (length input - length rest - 1) ≡ some x =
      ap (get_elem? input) {x = length input - length rest - 1}
        {y = length input - suc (length rest)} (omega arith)
      ∙ get_elem?-drop input (length input - suc (length rest)) x rest e in
    let next : drop (length input - length rest) input ≡ rest =
      ap (λ n. drop n input) {x = length input - length rest}
        {y = length input - suc (length rest) + 1} (omega (arith, long))
      ∙ sym (drop-drop 1 (length input - suc (length rest)) input)
      ∙ ap (drop 1) e in
    rw (encode_loop, here, encode_loop-encoding input rest (encode_step h x).1 next)
      (ap some (encoding_step h x rest))

int32_small : (n : ℕ) → n < 2 ^ 31 → int32 n ≡ pos n
int32_small n h = ground arith

-- An input whose length is an `int` is encoded byte by byte.
pub base64_encode-encoding :
    (input : List ℕ) → length input < 2 ^ 31 → base64_encode input ≡ some (encoding held0 input)
unfolding base64_encode
base64_encode-encoding input small =
    rw (base64_encode, int32_small (length input) small)
      (encode_loop-encoding input input held0
        (ap (λ n. drop n input) {x = length input - length input} {y = zero} (omega arith)))
