-- ===== src/KeyGenerator/Tests.antt =====
-- lib/key_generator.h: runs, and the theorems at them.
use c_cpp_sandbox.Common.{
  ℕ, ◌≤◌, ◌≡◌, ◌↔◌, refl, Option, none, some, List, [], ◌∷◌, arith, All, take, characters,
}
use c_cpp_sandbox.KeyGenerator.{val_to_hex_char_array, refresh}
use c_cpp_sandbox.KeyGenerator.Digits.{IsHexChar, refresh_iff}
use c_cpp_sandbox.KeyGenerator.Restart.{
  Event, take_key, restart, keys, successive, keys-successive, IsDistinct, keys-IsDistinct,
}

hex_run : val_to_hex_char_array [] 0xbeef02 4 ≡ some (characters "00BEEF02")
unfolding val_to_hex_char_array
hex_run = refl

refresh_run : refresh (some (characters "00000000000000FE\n")) 0 ≡ some 254
unfolding refresh
refresh_run = refl

lower_case : refresh (some (characters "00000000000000fe")) 0 ≡ none
unfolding refresh
lower_case = refl

refresh_iff_example :
    ((v : ℕ) × (refresh (some (characters "0123")) 7 ≡ some v))
    ↔ ((16 ≤ 4) × All IsHexChar (take 16 (characters "0123")))
refresh_iff_example = refresh_iff (characters "0123") 7

abbrev session : List Event
session = take_key ∷ restart ∷ take_key ∷ restart ∷ take_key ∷ []

keys-successive_example : keys 41 session ≡ some (successive 3 41)
keys-successive_example = keys-successive session 41 (omega arith)

keys-IsDistinct_example : (l : List (Option (List ℕ))) × (keys 41 session ≡ some l) × IsDistinct l
keys-IsDistinct_example = keys-IsDistinct session 41 (omega arith)
