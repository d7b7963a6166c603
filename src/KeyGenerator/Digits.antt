-- ===== src/KeyGenerator/Digits.antt =====
-- The hexadecimal characters of lib/key_generator.h: writing, and reading back.
use c_cpp_sandbox.Common.{
  ℕ, zero, suc, ◌+◌, ◌*◌, ◌/◌, ◌%◌, ◌^◌, ◌≤◌, ◌<◌, ◌≡◌, refl, sym, ap, ◌∙◌, ◌↔◌, ◌⊎◌, inl, inr,
  none, some, List, [], ◌∷◌, arith, Option-cases, All, length, take,
}
use c_cpp_sandbox.StringUtils.{is_digit, is_upper_hex}
use c_cpp_sandbox.KeyGenerator.{
  u64, hex_char, hex_loop, val_to_hex_char_array, hex_value, refresh_loop, refresh,
}

-- A character that `refresh` reads.
abbrev pub IsHexChar : ℕ → Type 0
IsHexChar c = ((b'0' ≤ c) × (c ≤ b'9')) ⊎ ((b'A' ≤ c) × (c ≤ b'F'))

pub hex_char-IsHexChar : (n : ℕ) → n < 16 → IsHexChar (hex_char n)
unfolding hex_char is_digit is_upper_hex
hex_char-IsHexChar n h = ground arith

pub hex_value-hex_char : (n : ℕ) → n < 16 → hex_value (hex_char n) ≡ some n
unfolding hex_value hex_char is_digit is_upper_hex
hex_value-hex_char n h = ground arith

-- Two characters for each byte of the value.
pub length-hex_loop :
    (chars : List ℕ) (value bytes : ℕ)
    → length (hex_loop chars value bytes) ≡ length chars + 2 * bytes
unfolding hex_loop
length-hex_loop chars value zero = omega arith
length-hex_loop chars value (suc bytes) = omega (
  arith,
  length-hex_loop (hex_char (value / 16 % 16) ∷ hex_char (value % 16) ∷ chars) (value / 256) bytes,
)

pub hex_loop-IsHexChar :
    (chars : List ℕ) (value bytes : ℕ)
    → All IsHexChar chars
    → All IsHexChar (hex_loop chars value bytes)
unfolding hex_loop
hex_loop-IsHexChar chars value zero h = h
hex_loop-IsHexChar chars value (suc bytes) h =
    hex_loop-IsHexChar (hex_char (value / 16 % 16) ∷ hex_char (value % 16) ∷ chars) (value / 256)
      bytes
      (
        hex_char-IsHexChar (value / 16 % 16) (omega arith),
        (hex_char-IsHexChar (value % 16) (omega arith), h),
      )

-- `k` and two for each byte
abbrev count : ℕ → ℕ → ℕ
count zero k = k
count (suc bytes) k = count bytes (suc (suc k))

-- the values of so many bytes are below it
abbrev bound : ℕ → ℕ
bound zero = 1
bound (suc bytes) = 256 * bound bytes

refresh_loop-digit :
    (k current d : ℕ) (file : List ℕ)
    → d < 16
    → refresh_loop (suc k) current (hex_char d ∷ file)
      ≡ refresh_loop k (u64 (current * 16) + d) file
unfolding refresh_loop
refresh_loop-digit k current d file h = ground (arith, hex_value-hex_char d h)

-- Reading what the loop has written gives the value, and goes on with the characters behind it.
refresh_loop-hex_loop :
    (bytes value k : ℕ) (chars : List ℕ)
    → value < bound bytes
    → value < 2 ^ 64
    → refresh_loop (count bytes k) 0 (hex_loop chars value bytes) ≡ refresh_loop k value chars
unfolding hex_loop
refresh_loop-hex_loop zero value k chars h narrow = ap (λ v. refresh_loop k v chars) (omega arith)
refresh_loop-hex_loop (suc bytes) value k chars h narrow =
    refresh_loop-hex_loop bytes (value / 256) (suc (suc k)) _ (omega arith) (omega arith)
    ∙ refresh_loop-digit (suc k) (value / 256) (value / 16 % 16) _ (omega arith)
    ∙ refresh_loop-digit k _ (value % 16) chars (omega arith)
    ∙ ap (λ v. refresh_loop k v chars) (omega arith)

-- A value below 2^64 that is written in hexadecimal with eight bytes is read back as itself.
pub refresh-hex :
    (value : ℕ) → value < 2 ^ 64 → refresh (val_to_hex_char_array [] value 8) 0 ≡ some value
unfolding refresh val_to_hex_char_array refresh_loop
refresh-hex value h = refresh_loop-hex_loop 8 value 0 [] (omega arith) h

hex_value-IsHexChar : (c d : ℕ) → hex_value c ≡ some d → IsHexChar c
unfolding hex_value is_digit is_upper_hex
hex_value-IsHexChar c d e = ground arith

hex_value-none : (c : ℕ) → hex_value c ≡ none → IsHexChar c → ⊥
unfolding hex_value is_digit is_upper_hex
hex_value-none c e h = ground arith

refresh_loop-some :
    (n current c : ℕ) (file : List ℕ) (d : ℕ)
    → hex_value c ≡ some d
    → refresh_loop (suc n) current (c ∷ file) ≡ refresh_loop n (u64 (current * 16) + d) file
unfolding refresh_loop
refresh_loop-some n current c file d e = ground (arith, e)

refused :
    (n current c : ℕ) (file : List ℕ) (v : ℕ)
    → hex_value c ≡ none
    → refresh_loop (suc n) current (c ∷ file) ≡ some v
    → ⊥
unfolding refresh_loop
refused n current c file v e h = ground (arith, e, h)

refresh_loop_iff :
    (n current : ℕ) (file : List ℕ)
    → ((v : ℕ) × (refresh_loop n current file ≡ some v))
      ↔ ((n ≤ length file) × All IsHexChar (take n file))
unfolding refresh_loop
refresh_loop_iff zero current file = ((λ h. (omega arith, tt)), (λ h. (current, refl)))
refresh_loop_iff (suc n) current [] = ((λ h. absurd (cc (h.1))), (λ h. absurd (omega (arith, h.0))))
refresh_loop_iff (suc n) current (c ∷ file) = elim (Option-cases (hex_value c)) [
  | inl e ↦
      ((λ h. absurd (refused n current c file h.0 e h.1)), (λ h. absurd (hex_value-none c e h.1.0)))
  | inr (d, e) ↦
      let (to, from) = refresh_loop_iff n (u64 (current * 16) + d) file in
      (
        (λ h.
            let (less, all) = to (h.0, sym (refresh_loop-some n current c file d e) ∙ h.1) in
            (omega (arith, less), (hex_value-IsHexChar c d e, all))),
        (λ h.
            let (v, read) = from (omega (arith, h.0), h.1.1) in
            (v, refresh_loop-some n current c file d e ∙ read)),
      )
]

-- `refresh` reads a value from a file exactly if the file has at least sixteen characters and the
-- first sixteen are digits or capital letters up to F; otherwise it throws.
pub refresh_iff :
    (file : List ℕ) (current : ℕ)
    → ((v : ℕ) × (refresh (some file) current ≡ some v))
      ↔ ((16 ≤ length file) × All IsHexChar (take 16 file))
unfolding refresh
refresh_iff file current = refresh_loop_iff 16 current file
