-- ===== src/KeyGenerator.antt =====
-- lib/key_generator.h: keys as numbers in hexadecimal, and the file that the last one is kept in.
-- The mutex is left out: a call runs from its lock to its unlock. A thrown exception is `none`.
pub mod Digits
pub mod Restart
pub mod Uuid
mod Tests
use c_cpp_sandbox.Common.{
  ℕ, zero, suc, ◌+◌, ◌-◌, ◌*◌, ◌/◌, ◌%◌, ◌^◌, Bool, ◌||◌, Option, none, some, List, [], ◌∷◌, ltb,
  if◌then◌else◌,
}
use c_cpp_sandbox.StringUtils.{is_digit, is_upper_hex}

abbrev pub u64 : ℕ → ℕ
u64 n = n % 2 ^ 64

-- The character of a hexadecimal digit.
unfoldable pub hex_char : ℕ → ℕ
hex_char n = if ltb n 0xa then n + 0x30 else n + (0x41 - 0xa)

-- The loop of `valToHexCharArray`; `& 0x0F` and `& 0xF0` are written with the remainder by 16.
unfoldable pub hex_loop : List ℕ → ℕ → ℕ → List ℕ
unfolding hex_char
hex_loop chars value zero = chars
hex_loop chars value (suc bytes) =
    hex_loop (hex_char (value / 16 % 16) ∷ hex_char (value % 16) ∷ chars) (value / 256) bytes

unfoldable pub val_to_hex_char_array : List ℕ → ℕ → ℕ → Option (List ℕ)
unfolding hex_loop
val_to_hex_char_array chars value bytes =
    if ltb 8 bytes then none else some (hex_loop chars value bytes)

-- What one character adds to the value that `refresh` reads.
unfoldable pub hex_value : ℕ → Option ℕ
unfolding is_digit is_upper_hex
hex_value byte =
    if is_digit byte
    then some (byte - 0x30)
    else if is_upper_hex byte
    then some (byte - 0x41 + 0xa)
    else none

-- The loop of `refresh`. The low four bits are zero after the shift, so `|=` adds. At the end of the
-- file `get` throws.
unfoldable pub refresh_loop : ℕ → ℕ → List ℕ → Option ℕ
unfolding hex_value
refresh_loop zero current file = some current
refresh_loop (suc n) current [] = none
refresh_loop (suc n) current (byte ∷ file) = elim (hex_value byte) [
  | none ↦ none
  | some d ↦ refresh_loop n (u64 (current * 16) + d) file
]

-- `refresh`: `none` for the file is a failed `open`.
unfoldable pub refresh : Option (List ℕ) → ℕ → Option ℕ
unfolding refresh_loop
refresh none current = some current
refresh (some file) current = refresh_loop 16 current file

-- The constructor from a store, over the content of its file.
unfoldable pub unique_key_generator : Option (List ℕ) → Option ℕ
unfolding refresh
unique_key_generator file = refresh file 0

-- `nextAsInteger`: the key, which is also the new value of `current`.
unfoldable pub next_as_integer : ℕ → ℕ
next_as_integer current = u64 (current + 1)

-- `next`: the key, and the new value of `current`.
unfoldable pub next : ℕ → Option (List ℕ) × ℕ
unfolding val_to_hex_char_array
next current = let current' = u64 (current + 1) in (val_to_hex_char_array [] current' 8, current')

-- The destructor: what is flushed to the file, whose path is not empty.
unfoldable pub destroy : ℕ → Option (List ℕ)
unfolding val_to_hex_char_array
destroy current = val_to_hex_char_array [] current 8

-- The number of random words of the two UUID generators.
unfoldable pub uuid_v4_initialize : ℕ → Option ℕ
uuid_v4_initialize val = if ltb val 4 || ltb 6 val then none else some val

unfoldable pub uuid_v7_initialize : ℕ → Option ℕ
uuid_v7_initialize val = if ltb val 2 || ltb 4 val then none else some val

-- `UUIDGeneratorV4::next` with the words that `random` gives, one for each turn of the loop.
unfoldable pub uuid_v4_loop : List ℕ → List ℕ → Option (List ℕ)
unfolding val_to_hex_char_array
uuid_v4_loop chars [] = some chars
uuid_v4_loop chars (random ∷ randoms) = elim (val_to_hex_char_array chars (random % 2 ^ 32) 4) [
  | none ↦ none
  | some chars' ↦ uuid_v4_loop chars' randoms
]

unfoldable pub uuid_v4_next : List ℕ → Option (List ℕ)
unfolding uuid_v4_loop
uuid_v4_next randoms = uuid_v4_loop [] randoms
